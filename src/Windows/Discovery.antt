-- ===== src/Windows/Discovery.antt =====
-- src/anyserial/_windows/discovery.py: the enumeration by SetupAPI and by the registry.
pub mod Lookup
use anyserial.Base.{
  ℕ, zero, suc, ◌==◌, length, Bool, true, false, ◌&&◌, Option, none, some, List, [], ◌∷◌, ◌++◌,
  if◌then◌else◌,
}
use anyserial.Discovery.{Text, PortInfo, Naming, canonical_port_name, same_text, first_match}
use anyserial.Discovery.Texts.{codes, strip_left, strip_text, or_none}
use anyserial.Discovery.Hwid.{format_hwid}
use anyserial.Discovery.Sorting.{sort_by_device}
use anyserial.Windows.Identifiers.{parse_device_ids, or_else, ◌>>=◌}

-- What SetupAPI tells of one interface: its path, three registry properties and its instance
-- identifier, each `none` where the call failed.
pub record Interface : Type 0 where
  pub device_path : Text
  pub friendly : Option Text
  pub hardware_id : Option Text
  pub location : Option Text
  pub instance_id : Option Text

-- SetupAPI and `winreg`, as they answer during an enumeration. An index past the last one has no
-- entry; an interface may have no detail, and a value of the registry may be no text.
pub record DeviceLists : Type 0 where
  pub has_devices : Bool
  pub interface : ℕ → Option (Option Interface)
  pub has_winreg : Bool
  pub has_key : Bool
  pub value : ℕ → Option (Option Text)
  -- `\d`
  pub is_decimal : ℕ → Bool

-- `_get_registry_string`
abbrev pub registry_string : Option Text → Option Text
registry_string none = none
registry_string (some value) = or_none (strip_text value)

-- `_get_instance_id`
abbrev pub instance_string : Option Text → Option Text
instance_string none = none
instance_string (some value) = or_none value

unfoldable pub after_exact : Text → Text → Option Text
after_exact [] s = some s
after_exact (c ∷ cs) [] = none
after_exact (c ∷ cs) (d ∷ s) = let rest = after_exact cs s in if c == d then rest else none

-- `\d+`, as much as there is, and what follows it.
unfoldable pub digits_of : (ℕ → Bool) → Text → Text
digits_of is_decimal [] = []
digits_of is_decimal (c ∷ s) =
    let rest = digits_of is_decimal s in if is_decimal c then c ∷ rest else []

unfoldable pub after_digits : (ℕ → Bool) → Text → Text
after_digits is_decimal [] = []
after_digits is_decimal (c ∷ s) =
    let rest = after_digits is_decimal s in if is_decimal c then rest else c ∷ s

-- The name, if there are digits and then a closing parenthesis, and what follows.
abbrev pub closed_name : Text → Text → Option (Text × Text)
closed_name [] rest = none
closed_name (d ∷ digits) [] = none
closed_name (d ∷ digits) (c ∷ rest) =
    if c == 41 then some (codes "COM" ++ d ∷ digits, rest) else none

-- `\(COM\d+\)` at the start of a text: the name inside, and what follows.
unfoldable pub match_com : (ℕ → Bool) → Text → Option (Text × Text)
unfolding after_exact digits_of after_digits
match_com is_decimal s = after_exact (codes "(COM") s >>= λ t.
    closed_name (digits_of is_decimal t) (after_digits is_decimal t)

unfoldable pub search_com : (ℕ → Bool) → Text → Option Text
unfolding match_com
search_com is_decimal [] = none
search_com is_decimal (c ∷ s) = elim (match_com is_decimal (c ∷ s)) [
  | some (name, rest) ↦ some name
  | none ↦ search_com is_decimal s
]

unfoldable pub extract_com_name : (ℕ → Bool) → Option Text → Option Text
unfolding search_com
extract_com_name is_decimal none = none
extract_com_name is_decimal (some friendly) = search_com is_decimal friendly

-- `re.sub(r"\s*\(COM\d+\)", "", friendly)`; each round takes a character or more, so that the length
-- of the text is enough rounds.
unfoldable pub remove_com : ℕ → (ℕ → Bool) → Text → Text
unfolding match_com strip_left
remove_com zero is_decimal s = s
remove_com (suc rounds) is_decimal [] = []
remove_com (suc rounds) is_decimal (c ∷ s) = elim (match_com is_decimal (strip_left (c ∷ s))) [
  | some (name, rest) ↦ remove_com rounds is_decimal rest
  | none ↦ c ∷ remove_com rounds is_decimal s
]

unfoldable pub strip_com_suffix : (ℕ → Bool) → Option Text → Option Text
unfolding remove_com
strip_com_suffix is_decimal none = none
strip_com_suffix is_decimal (some friendly) =
    or_none (strip_text (remove_com (length friendly) is_decimal friendly))

-- `_resolve_interface`, once the detail is there.
unfoldable pub port_of_interface : (ℕ → Bool) → Interface → PortInfo
unfolding extract_com_name strip_com_suffix parse_device_ids format_hwid
port_of_interface is_decimal i =
    let friendly = registry_string i.friendly in
    let location = registry_string i.location in
    let com_name = extract_com_name is_decimal friendly in
    let (vid, pid, serial_number) =
      parse_device_ids (instance_string i.instance_id) (registry_string i.hardware_id) in
    record {
      device = or_else com_name i.device_path;
      name = com_name;
      description = friendly;
      hwid = format_hwid vid pid serial_number location;
      vid = vid;
      pid = pid;
      serial_number = serial_number;
      manufacturer = none;
      product = strip_com_suffix is_decimal friendly;
      location = location;
      interface = none;
    }

-- A port of the registry, of which only the name is known.
unfoldable pub port_of_value : Text → PortInfo
port_of_value value = record {
  device = value;
  name = some value;
  description = none;
  hwid = none;
  vid = none;
  pid = none;
  serial_number = none;
  manufacturer = none;
  product = none;
  location = none;
  interface = none;
}

-- The `while True` loops of both enumerations, from an index on; `none` where the rounds run out
-- before the entries do.
abbrev pub with_first : Option PortInfo → Option (List PortInfo) → Option (List PortInfo)
with_first p none = none
with_first none (some ports) = some ports
with_first (some p) (some ports) = some (p ∷ ports)

unfoldable pub entries_from :
    {A : Type 0} → (A → Option PortInfo) → (ℕ → Option (Option A)) → ℕ → ℕ → Option (List PortInfo)
entries_from make entry zero index = none
entries_from make entry (suc rounds) index = elim (entry index) [
  | none ↦ some []
  | some none ↦ entries_from make entry rounds (suc index)
  | some (some a) ↦ with_first (make a) (entries_from make entry rounds (suc index))
]

unfoldable pub enumerate_setupapi : ℕ → DeviceLists → Option (List PortInfo)
unfolding entries_from port_of_interface
enumerate_setupapi rounds lists =
    if lists.has_devices
    then entries_from (λ i. some (port_of_interface lists.is_decimal i)) lists.interface rounds 0
    else some []

-- `isinstance(value, str) and value`
abbrev pub port_if_named : Text → Option PortInfo
port_if_named [] = none
port_if_named (c ∷ s) = some (port_of_value (c ∷ s))

unfoldable pub enumerate_registry_fallback : ℕ → DeviceLists → Option (List PortInfo)
unfolding entries_from port_of_value
enumerate_registry_fallback rounds lists =
    if lists.has_winreg && lists.has_key
    then entries_from port_if_named lists.value rounds 0
    else some []

-- `if not ports`
abbrev pub or_fallback : List PortInfo → Option (List PortInfo) → Option (List PortInfo)
or_fallback [] fallback = fallback
or_fallback (p ∷ ports) fallback = some (p ∷ ports)

unfoldable pub enumerate_ports : ℕ → DeviceLists → Option (List PortInfo)
unfolding enumerate_setupapi enumerate_registry_fallback
enumerate_ports rounds lists =
    enumerate_setupapi rounds lists
    >>= (λ ports. or_fallback ports (enumerate_registry_fallback rounds lists))
    >>= λ ports. some (sort_by_device ports)

-- Whether a port has the name that is wanted, by the rules of Windows.
unfoldable pub is_wanted : Naming → Text → PortInfo → Bool
is_wanted host path p =
    same_text (canonical_port_name (record host { is_windows = true }) p.device)
      (canonical_port_name (record host { is_windows = true }) path)

abbrev pub or_first :
    (PortInfo → Bool) → Option (List PortInfo) → Option PortInfo → Option (Option PortInfo)
or_first test fallback (some p) = some (some p)
or_first test fallback none = fallback >>= λ ports. some (first_match test ports)

unfoldable pub resolve_port_info : ℕ → DeviceLists → Naming → Text → Option (Option PortInfo)
unfolding enumerate_setupapi enumerate_registry_fallback is_wanted first_match
resolve_port_info rounds lists host path = enumerate_setupapi rounds lists >>= λ ports.
    or_first (is_wanted host path) (enumerate_registry_fallback rounds lists)
      (first_match (is_wanted host path) ports)
