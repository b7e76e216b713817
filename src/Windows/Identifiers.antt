-- ===== src/Windows/Identifiers.antt =====
-- src/anyserial/_windows/discovery.py: what the identifiers and the friendly name of a device tell.
-- Identifiers are ASCII, so that ignoring case is a matter of A to Z.
pub mod Roundtrip
use anyserial.Base.{
  ℕ, suc, zero, ◌==◌, leb, length, Bool, true, false, not, ◌&&◌, ◌||◌, Option, none, some, List, [],
  ◌∷◌, ◌++◌, if◌then◌else◌,
}
use anyserial.Discovery.{Text}
use anyserial.Discovery.Texts.{codes, is_space, strip_text, or_none, after_literal, read_hex}

infixl 5 ◌>>=◌
abbrev pub ◌>>=◌ {ℓ κ} : {A : Type ℓ} {B : Type κ} → Option A → (A → Option B) → Option B
none >>= f = none
some a >>= f = f a

-- The vendor, the product and the serial number.
abbrev pub Ids : Type 0
Ids = Option ℕ × Option ℕ × Option Text

abbrev pub no_ids : Ids
no_ids = (none, none, none)

-- A backslash
abbrev pub backslash : ℕ
backslash = 92

abbrev pub has_char : ℕ → Text → Bool
has_char c [] = false
has_char c (d ∷ s) = (c == d) || has_char c s

-- `[^\\]+`, at the start of a text: as much as there is up to a backslash.
unfoldable pub segment : Text → Text
segment [] = []
segment (c ∷ s) = let rest = segment s in if c == backslash then [] else c ∷ rest

-- `(?:<separator>([^\\]+))?`: the group, if the separator and a character follow.
unfoldable pub group_after : ℕ → Text → Option Text
unfolding segment
group_after separator [] = none
group_after separator (c ∷ s) = if c == separator then or_none (segment s) else none

-- `(?:&MI_[0-9A-F]{2})?`
abbrev pub after_interface : Text → Option (ℕ × Text) → Text
after_interface s none = s
after_interface s (some (n, rest)) = rest

unfoldable pub skip_interface : Text → Text
unfolding after_literal read_hex
skip_interface s = elim (after_literal (codes "&MI_") s) [
  | none ↦ s
  | some rest ↦ after_interface s (read_hex 2 0 rest)
]

unfoldable pub usb_serial_number : Option Text → Option Text
usb_serial_number none = none
usb_serial_number (some []) = none
usb_serial_number (some (c ∷ s)) = if has_char 38 (c ∷ s) then none else some (c ∷ s)

-- `segment[:-1]` where the last of two characters or more is one of A to Z.
unfoldable pub without_port_letter : Text → Text
without_port_letter [] = []
without_port_letter (c ∷ []) = c ∷ []
without_port_letter (c ∷ d ∷ []) = if leb 65 d && leb d 90 then c ∷ [] else c ∷ d ∷ []
without_port_letter (c ∷ d ∷ e ∷ s) = c ∷ without_port_letter (d ∷ e ∷ s)

unfoldable pub ftdi_serial_number : Option Text → Option Text
unfolding without_port_letter
ftdi_serial_number none = none
ftdi_serial_number (some []) = none
ftdi_serial_number (some (c ∷ s)) =
    if has_char 38 (c ∷ s) then none else some (without_port_letter (c ∷ s))

-- A regular expression up to its second group: a literal, four digits, a literal and four digits.
unfoldable pub vid_pid : Text → Text → Text → Option (ℕ × ℕ × Text)
unfolding after_literal read_hex
vid_pid before between s = do
  vid_on ← after_literal before s
  (vid, s1) ← read_hex 4 0 vid_on
  pid_on ← after_literal between s1
  (pid, s2) ← read_hex 4 0 pid_on
  some (vid, pid, s2)

-- `_USB_INSTANCE_ID_RE.match`, with the serial number made of its third group.
unfoldable pub match_usb : Text → Option Ids
unfolding vid_pid group_after skip_interface usb_serial_number
match_usb s = do
  (vid, pid, rest) ← vid_pid (codes "USB\\VID_") (codes "&PID_") s
  some (some vid, some pid, usb_serial_number (group_after backslash (skip_interface rest)))

-- `_FTDIBUS_INSTANCE_ID_RE.match`
unfoldable pub match_ftdibus : Text → Option Ids
unfolding vid_pid group_after ftdi_serial_number
match_ftdibus s = do
  (vid, pid, rest) ← vid_pid (codes "FTDIBUS\\VID_") (codes "+PID_") s
  some (some vid, some pid, ftdi_serial_number (group_after 43 rest))

abbrev pub or_else {ℓ} : {A : Type ℓ} → Option A → A → A
or_else none a = a
or_else (some b) a = b

unfoldable pub parse_instance_id : Option Text → Ids
unfolding match_usb match_ftdibus
parse_instance_id none = no_ids
parse_instance_id (some s) = or_else (match_usb s) (or_else (match_ftdibus s) no_ids)

-- `_HWID_VID_PID_RE` at the start of a text, with either separator, and anywhere in it.
unfoldable pub match_hwid : Text → Option (ℕ × ℕ)
unfolding vid_pid
match_hwid s = elim (vid_pid (codes "VID_") (codes "&PID_") s) [
  | some (vid, pid, rest) ↦ some (vid, pid)
  | none ↦ elim (vid_pid (codes "VID_") (codes "+PID_") s) [
    | some (vid, pid, rest) ↦ some (vid, pid)
    | none ↦ none
  ]
]

unfoldable pub search_hwid : Text → Option (ℕ × ℕ)
unfolding match_hwid
search_hwid [] = none
search_hwid (c ∷ s) = elim (match_hwid (c ∷ s)) [ some p ↦ some p | none ↦ search_hwid s ]

abbrev pub both : Option (ℕ × ℕ) → Option ℕ × Option ℕ
both none = (none, none)
both (some (vid, pid)) = (some vid, some pid)

unfoldable pub parse_hardware_id : Option Text → Option ℕ × Option ℕ
unfolding search_hwid
parse_hardware_id none = (none, none)
parse_hardware_id (some s) = both (search_hwid s)

-- `_parse_device_ids`: the instance identifier comes first.
abbrev pub or_hardware : Option Text → Ids → Ids
or_hardware hardware_id (some vid, pid, serial) = (some vid, pid, serial)
or_hardware hardware_id (none, pid, serial) =
    let (vid', pid') = parse_hardware_id hardware_id in (vid', pid', none)

unfoldable pub parse_device_ids : Option Text → Option Text → Ids
unfolding parse_instance_id parse_hardware_id
parse_device_ids instance_id hardware_id = or_hardware hardware_id (parse_instance_id instance_id)
