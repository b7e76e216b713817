-- ===== src/Bsd/Discovery.antt =====
-- src/anyserial/_bsd/discovery.py: the ports by the names of their device nodes.
pub mod Distinct
pub mod Nodes
use anyserial.Base.{
  ◌==◌, Bool, true, false, ◌&&◌, ◌||◌, not, String, Option, none, some, List, [], ◌∷◌, ◌++◌,
  if◌then◌else◌,
}
use text.Mathlib.Text.{starts_with}
use anyserial.Discovery.{Text, PortInfo, same_text}
use anyserial.Discovery.Texts.{codes}
use anyserial.Discovery.Sorting.{sort_by_device}
use anyserial.Linux.Discovery.{device_of, path_name}

-- What `pathlib` answers about /dev: whether it is a directory and the names of its entries;
-- `str(Path(path))`; and whether a path matches the absolute pattern /dev/…
pub record DevTree : Type 0 where
  pub is_dir : Bool
  pub names : List Text
  pub normal : Text → Text
  pub matches_path : Text → Text → Bool

-- A pattern is what stands before its `*`.
abbrev pub freebsd_patterns : List Text
freebsd_patterns = codes "cuaU" ∷ codes "cuau" ∷ codes "cuad" ∷ codes "ttyU" ∷ codes "ttyu" ∷ []

abbrev pub openbsd_patterns : List Text
openbsd_patterns = codes "cuaU" ∷ codes "cua0" ∷ codes "cua1" ∷ []

abbrev pub netbsd_patterns : List Text
netbsd_patterns = codes "dtyU" ∷ codes "dty0" ∷ codes "ttyU" ∷ []

abbrev pub dragonfly_patterns : List Text
dragonfly_patterns = codes "cuaU" ∷ codes "cuau" ∷ []

unfoldable pub patterns_for_platform : String → List Text
patterns_for_platform platform =
    if starts_with platform "freebsd"
    then freebsd_patterns
    else if starts_with platform "openbsd"
    then openbsd_patterns
    else if starts_with platform "netbsd"
    then netbsd_patterns
    else if starts_with platform "dragonfly"
    then dragonfly_patterns
    else []

-- `fnmatchcase` of a pattern that ends in its one `*`.
unfoldable pub fnmatch_basename : Text → Text → Bool
fnmatch_basename name [] = true
fnmatch_basename [] (p ∷ pattern) = false
fnmatch_basename (c ∷ name) (p ∷ pattern) = (c == p) && fnmatch_basename name pattern

-- `dev_root.glob(pattern)`, and the same for one pattern after the other.
unfoldable pub glob : Text → List Text → List Text
unfolding fnmatch_basename
glob pattern [] = []
glob pattern (name ∷ names) =
    let rest = glob pattern names in if fnmatch_basename name pattern then name ∷ rest else rest

unfoldable pub nodes : List Text → List Text → List Text
unfolding glob
nodes [] names = []
nodes (pattern ∷ patterns) names = glob pattern names ++ nodes patterns names

abbrev pub node_port : Text → Text → PortInfo
node_port device name = record {
  device = device;
  name = some name;
  description = none;
  hwid = none;
  vid = none;
  pid = none;
  serial_number = none;
  manufacturer = none;
  product = none;
  location = none;
  interface = none;
}

-- `device in seen`
unfoldable pub is_seen : Text → List Text → Bool
is_seen device [] = false
is_seen device (other ∷ seen) = same_text device other || is_seen device seen

-- The body of both loops: a device that was seen is passed over.
unfoldable pub unseen : List Text → List Text → List PortInfo
unfolding is_seen
unseen seen [] = []
unseen seen (name ∷ names) =
    let before = is_seen (device_of name) seen in
    let rest = unseen (if before then seen else device_of name ∷ seen) names in
    if before then rest else node_port (device_of name) name ∷ rest

abbrev pub is_empty : List Text → Bool
is_empty [] = true
is_empty (x ∷ xs) = false

unfoldable pub enumerate_ports : DevTree → String → List PortInfo
unfolding patterns_for_platform unseen nodes
enumerate_ports dev platform =
    let patterns = patterns_for_platform platform in
    if is_empty patterns || not dev.is_dir
    then []
    else sort_by_device (unseen [] (nodes patterns dev.names))

-- The loop over the patterns; none of them, where there are no patterns.
unfoldable pub resolve_from : DevTree → Text → Text → List Text → Option PortInfo
unfolding fnmatch_basename
resolve_from dev path name [] = none
resolve_from dev path name (pattern ∷ patterns) =
    let rest = resolve_from dev path name patterns in
    if dev.matches_path path pattern || fnmatch_basename name pattern
    then some (node_port (dev.normal path) name)
    else rest

unfoldable pub resolve_port_info : DevTree → String → Text → Option PortInfo
unfolding patterns_for_platform path_name resolve_from
resolve_port_info dev platform path =
    resolve_from dev path (path_name path [] []) (patterns_for_platform platform)
