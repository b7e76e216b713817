-- ===== src/Discovery.antt =====
-- src/anyserial/discovery.py: the canonical name of a port, and the search for a port. A text is its
-- code points.
pub mod Adapters
pub mod Names
pub mod Search
pub mod Texts
pub mod Hwid
pub mod Sorting
use anyserial.Base.{
  ℕ, ◌==◌, Bool, true, false, ◌&&◌, ◌||◌, String, Option, none, some, List, [], ◌∷◌, if◌then◌else◌,
}
use anyserial.Errors.{Exn, Result, ok, raise}
use anyserial.Selection.{DiscoveryBackend, Enumerator, select_discovery}

abbrev pub Text : Type 0
Text = List ℕ

pub record PortInfo : Type 0 where
  pub device : Text
  pub name : Option Text
  pub description : Option Text
  pub hwid : Option Text
  pub vid : Option ℕ
  pub pid : Option ℕ
  pub serial_number : Option Text
  pub manufacturer : Option Text
  pub product : Option Text
  pub location : Option Text
  pub interface : Option Text

-- What the host answers: whether `sys.platform` is `win32`, `str.upper`, and the file system, which
-- stays as it is during a call.
pub record Naming : Type 0 where
  pub is_windows : Bool
  pub upper : Text → Text
  pub exists : Text → Bool
  pub realpath : Text → Text

-- `name.startswith(_WINDOWS_DEVICE_PREFIXES)`
unfoldable pub prefixed : Text → Bool
prefixed (a ∷ b ∷ c ∷ d ∷ rest) = (a == 92) && (b == 92) && ((c == 46) || (c == 63)) && (d == 92)
prefixed _ = false

-- The `while` loop that takes the prefixes off.
unfoldable pub strip : Text → Text
unfolding prefixed
strip (a ∷ b ∷ c ∷ d ∷ rest) =
    let bare = strip rest in if prefixed (a ∷ b ∷ c ∷ d ∷ rest) then bare else a ∷ b ∷ c ∷ d ∷ rest
strip xs = xs

unfoldable pub canonical_port_name : Naming → Text → Text
unfolding strip
canonical_port_name host path =
    if host.is_windows
    then host.upper (strip path)
    else if host.exists path
    then host.realpath path
    else path

abbrev pub same_text : Text → Text → Bool
same_text [] [] = true
same_text [] (y ∷ ys) = false
same_text (x ∷ xs) [] = false
same_text (x ∷ xs) (y ∷ ys) = (x == y) && same_text xs ys

-- `want is None or got == want`
abbrev pub meets {ℓ} : {A : Type ℓ} → (A → A → Bool) → Option A → Option A → Bool
meets same none got = true
meets same (some want) none = false
meets same (some want) (some got) = same got want

-- The filters of `find_serial_port`.
pub record Filters : Type 0 where
  pub vid : Option ℕ
  pub pid : Option ℕ
  pub serial_number : Option Text
  pub device : Option Text

abbrev pub on_device : {A : Type 0} → (Text → A) → Option Text → Option A
on_device f none = none
on_device f (some device) = some (f device)

-- The condition of the generator.
abbrev pub passes : Naming → Filters → Option Text → PortInfo → Bool
passes host f wanted p =
    meets (λ a b. a == b) f.vid p.vid
    && meets (λ a b. a == b) f.pid p.pid
    && meets same_text f.serial_number p.serial_number
    && meets same_text wanted (some (canonical_port_name host p.device))

-- The same, with `wanted` computed before it.
unfoldable pub accepts : Naming → Filters → PortInfo → Bool
unfolding canonical_port_name
accepts host f = passes host f (on_device (canonical_port_name host) f.device)

-- `next((p for p in ports if …), None)`
unfoldable pub first_match : (PortInfo → Bool) → List PortInfo → Option PortInfo
first_match test [] = none
first_match test (p ∷ ps) = if test p then some p else first_match test ps

abbrev pub listed :
    (Enumerator → Result (List PortInfo)) → Result Enumerator → Result (List PortInfo)
listed enumerate (raise e) = raise e
listed enumerate (ok e) = enumerate e

-- `list_serial_ports`, over what the enumerators of the host answer.
unfoldable pub list_serial_ports :
    (Enumerator → Result (List PortInfo)) → String → DiscoveryBackend → Result (List PortInfo)
unfolding select_discovery
list_serial_ports enumerate platform backend = listed enumerate (select_discovery platform backend)

abbrev pub among : (PortInfo → Bool) → Result (List PortInfo) → Result (Option PortInfo)
among test (raise e) = raise e
among test (ok ports) = ok (first_match test ports)

unfoldable pub find_serial_port :
    (Enumerator → Result (List PortInfo))
    → Naming
    → String
    → DiscoveryBackend
    → Filters
    → Result (Option PortInfo)
unfolding list_serial_ports accepts first_match
find_serial_port enumerate host platform backend f =
    among (accepts host f) (list_serial_ports enumerate platform backend)
