-- ===== src/Scenarios/Enumeration.antt =====
-- The search for a port, on a host whose names are those of Windows.
use anyserial.Base.{
  ℕ, ◌-◌, ◌==◌, leb, ◌&&◌, ◌≡◌, refl, true, none, some, List, [], ◌∷◌, map, if◌then◌else◌, arith,
}
use anyserial.Errors.{Result, ok, raise}
use anyserial.Selection.{
  Platform, platform_of, select_backend, select_discovery, unsupported_platform, DiscoveryBackend,
  Enumerator,
}
use anyserial.Discovery.{
  Text, PortInfo, Naming, Filters, prefixed, strip, canonical_port_name, accepts, first_match,
  list_serial_ports, find_serial_port,
}
use anyserial.Discovery.Names.{ResolvesOnce}
use anyserial.Discovery.Search.{find_any_spelling}

abbrev up : ℕ → ℕ
up c = if leb 97 c && leb c 122 then c - 32 else c

abbrev pub names : Naming
names = record { is_windows = true; upper = map up; exists = λ s. true; realpath = λ s. s }

up_once : (c : ℕ) → up (up c) ≡ up c
up_once c = ground arith

map_once : (s : Text) → map up (map up s) ≡ map up s
map_once [] = refl
map_once (c ∷ s) = rw (up_once c, map_once s) refl

up_still : (c d : ℕ) → leb d 64 ≡ true → (up c == d) ≡ (c == d)
up_still c d h = ground arith

up_backslash : (c : ℕ) → (up c == 92) ≡ (c == 92)
up_backslash c = ground arith

map_prefix : (s : Text) → prefixed (map up s) ≡ prefixed s
unfolding prefixed
map_prefix [] = refl
map_prefix (a ∷ []) = refl
map_prefix (a ∷ b ∷ []) = refl
map_prefix (a ∷ b ∷ c ∷ []) = refl
map_prefix (a ∷ b ∷ c ∷ d ∷ rest) =
    rw (up_backslash a, up_backslash b, up_still c 46 refl, up_still c 63 refl, up_backslash d) refl

names-ResolvesOnce : ResolvesOnce names
names-ResolvesOnce = record {
  upper_once = map_once;
  upper_prefix = map_prefix;
  resolved = λ s e. refl;
  resolves_once = λ s e. refl;
}

abbrev port : Text → ℕ → PortInfo
port device vid = record {
  device = device;
  name = none;
  description = none;
  hwid = none;
  vid = some vid;
  pid = none;
  serial_number = none;
  manufacturer = none;
  product = none;
  location = none;
  interface = none;
}

-- COM3 and COM8
abbrev com3 : Text
com3 = 67 ∷ 79 ∷ 77 ∷ 51 ∷ []

abbrev com8 : Text
com8 = 67 ∷ 79 ∷ 77 ∷ 56 ∷ []

-- `\\.\com8`
abbrev lower_com8 : Text
lower_com8 = 92 ∷ 92 ∷ 46 ∷ 92 ∷ 99 ∷ 111 ∷ 109 ∷ 56 ∷ []

abbrev enumerate : Enumerator → Result (List PortInfo)
enumerate e = ok (port com3 1027 ∷ port com8 1027 ∷ [])

abbrev filters : Filters
filters = record { vid = some 1027; pid = none; serial_number = none; device = some lower_com8 }

finds_com8 :
    find_serial_port enumerate names "win32" DiscoveryBackend.native filters
    ≡ ok (some (port com8 1027))
unfolding find_serial_port list_serial_ports select_discovery platform_of accepts first_match
    canonical_port_name strip prefixed
finds_com8 = refl

dragonfly_is_bsd : select_backend "dragonfly6" ≡ ok Platform.bsd
unfolding select_backend platform_of
dragonfly_is_bsd = refl

freebsd_is_bsd : select_backend "freebsd14" ≡ ok Platform.bsd
unfolding select_backend platform_of
freebsd_is_bsd = refl

none_for_sunos : select_backend "sunos5" ≡ raise unsupported_platform
unfolding select_backend platform_of
none_for_sunos = refl

find_any_spelling_example :
    find_serial_port enumerate names "win32" DiscoveryBackend.native
      (record filters { device = some (canonical_port_name names lower_com8) })
    ≡ find_serial_port enumerate names "win32" DiscoveryBackend.native
        (record filters { device = some lower_com8 })
find_any_spelling_example =
    find_any_spelling enumerate names "win32" DiscoveryBackend.native filters lower_com8
      names-ResolvesOnce
