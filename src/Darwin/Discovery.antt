-- ===== src/Darwin/Discovery.antt =====
-- src/anyserial/_darwin/discovery.py: the serial services of IOKit.
pub mod Keeping
pub mod Handles
pub mod Ending
use anyserial.Base.{
  ℕ, zero, suc, ◌-◌, ◌%◌, ◌/◌, ◌^◌, ◌==◌, ltb, ◌+◌, Bool, true, false, ◌||◌, String, Option, none,
  some, List, [], ◌∷◌, ℤ, pos, negsuc, if◌then◌else◌,
}
use anyserial.Errors.{Exn, Result, ok, raise}
use anyserial.Backend.Protocol.{Call}
use anyserial.Posix.Kernel.{pure, resume_with, ◌>>=◌}
use anyserial.Discovery.{Text, PortInfo, same_text}
use anyserial.Discovery.Texts.{or_none}
use anyserial.Discovery.Hwid.{format_hwid}
use anyserial.Discovery.Sorting.{sort_by_device}

-- `IOKitClient`, on a state `C`. A service goes by number; `next_service` advances the generator of
-- `list_serial_services`. An identifier is a `get_int` of 16 bits and never negative.
pub record IoKit (C : Type 0) : Type 0 where
  pub next_service : Call C (Option ℕ)
  pub get_string : ℕ → String → Call C (Option Text)
  pub get_id : ℕ → String → Call C (Option ℕ)
  pub get_int : ℕ → String → Call C (Option ℤ)
  pub find_usb_parent : ℕ → Call C (Option ℕ)
  pub release : ℕ → Call C (Unit {0})

-- `_UsbInfo`
pub record UsbInfo : Type 0 where
  pub vid : Option ℕ
  pub pid : Option ℕ
  pub serial_number : Option Text
  pub manufacturer : Option Text
  pub product : Option Text
  pub location : Option Text

abbrev pub no_usb : UsbInfo
no_usb = record {
  vid = none;
  pid = none;
  serial_number = none;
  manufacturer = none;
  product = none;
  location = none;
}

-- `device.rsplit("/", 1)[-1]`: what follows the last slash; `tail` is what follows the last so far.
unfoldable pub after_slash : Text → Text → Text
after_slash [] tail = tail
after_slash (c ∷ s) tail = after_slash s (if c == 47 then s else tail)

unfoldable pub device_base_name : Text → Option Text
unfolding after_slash
device_base_name device = or_none (after_slash device device)

-- A digit in lower case, and so many digits.
abbrev pub lower_hex : ℕ → ℕ
lower_hex n = if ltb n 10 then n + 48 else n + 87

unfoldable pub digits : ℕ → ℕ → Text → Text
digits zero n tail = tail
digits (suc count) n tail = digits count (n / 16) (lower_hex (n % 16) ∷ tail)

-- `location_id & 0xFFFF_FFFF`
abbrev pub unsigned32 : ℤ → ℕ
unsigned32 (pos n) = n % 2 ^ 32
unsigned32 (negsuc n) = 2 ^ 32 - 1 - n % 2 ^ 32

unfoldable pub format_location : Option ℤ → Option Text
unfolding digits
format_location none = none
format_location (some location_id) = some (digits 8 (unsigned32 location_id) [])

-- `callout or dialin`
abbrev pub or_dialin : Option Text → Option Text → Option Text
or_dialin none dialin = dialin
or_dialin (some []) dialin = dialin
or_dialin (some (c ∷ s)) dialin = some (c ∷ s)

abbrev pub same_option : Text → Option Text → Bool
same_option path none = false
same_option path (some text) = same_text text path

module _ {C : Type 0} (io : IoKit C) where
  -- `try: … finally: client.release(service)`
  abbrev pub after_body : {A : Type 0} → Result A → Result (Unit {0}) × C → Result A × C
  after_body r (ok u, c) = (r, c)
  after_body r (raise e, c) = (raise e, c)

  unfoldable pub finally_released : {A : Type 0} → ℕ → Call C A → Call C A
  finally_released service body c = let (r, c') = body c in after_body r (io.release service c')

  abbrev pub usb_of : ℕ → Call C UsbInfo
  usb_of parent = io.get_int parent "locationID" >>= λ location.
      io.get_id parent "idVendor" >>= λ vid. io.get_id parent "idProduct" >>= λ pid.
      io.get_string parent "USB Serial Number" >>= λ serial.
      io.get_string parent "USB Vendor Name" >>= λ vendor.
      io.get_string parent "USB Product Name" >>= λ product. pure (record {
        vid = vid;
        pid = pid;
        serial_number = serial;
        manufacturer = vendor;
        product = product;
        location = format_location location;
      })

  abbrev pub with_parent : Option ℕ → Call C UsbInfo
  with_parent none = pure no_usb
  with_parent (some parent) = finally_released parent (usb_of parent)

  unfoldable pub resolve_usb : ℕ → Call C UsbInfo
  unfolding finally_released format_location
  resolve_usb service = io.find_usb_parent service >>= with_parent

  abbrev pub port_of : Text → UsbInfo → PortInfo
  port_of device usb = record {
    device = device;
    name = device_base_name device;
    description = usb.product;
    hwid = format_hwid usb.vid usb.pid usb.serial_number usb.location;
    vid = usb.vid;
    pid = usb.pid;
    serial_number = usb.serial_number;
    manufacturer = usb.manufacturer;
    product = usb.product;
    location = usb.location;
    interface = none;
  }

  abbrev pub port_at : ℕ → Option Text → Call C (Option PortInfo)
  port_at service none = pure none
  port_at service (some device) = resolve_usb service >>= λ usb. pure (some (port_of device usb))

  unfoldable pub resolve_service : ℕ → Call C (Option PortInfo)
  unfolding resolve_usb device_base_name format_hwid
  resolve_service service = io.get_string service "IOCalloutDevice" >>= λ callout.
      io.get_string service "IODialinDevice" >>= λ dialin.
      port_at service (or_dialin callout dialin)

  -- What a loop over the services makes of one: an answer, which ends the loop, or something to go on.
  abbrev pub Rounds : Type 0 → Type 0
  Rounds A = Option (Result A × C)

  abbrev pub with_port : Option PortInfo → Rounds (List PortInfo) → Rounds (List PortInfo)
  with_port none rest = rest
  with_port (some p) none = none
  with_port (some p) (some (raise e, c)) = some (raise e, c)
  with_port (some p) (some (ok ports, c)) = some (ok (p ∷ ports), c)

  abbrev pub go_on :
      {A : Type 0} → (Option PortInfo → C → Rounds A) → Result (Option PortInfo) × C → Rounds A
  go_on next (raise e, c) = some (raise e, c)
  go_on next (ok p, c) = next p c

  abbrev pub at_service :
      {A : Type 0} → (ℕ → C → Rounds A) → Result (Option ℕ) × C → (C → Rounds A) → Rounds A
  at_service next (raise e, c) done = some (raise e, c)
  at_service next (ok none, c) done = done c
  at_service next (ok (some service), c) done = next service c

  -- The `for` of `enumerate_ports`; `none` where the rounds run out before the services do.
  unfoldable pub collect : ℕ → C → Rounds (List PortInfo)
  unfolding finally_released resolve_service
  collect zero c = none
  collect (suc rounds) c =
      at_service
        (λ service d.
          go_on (λ p d'. with_port p (collect rounds d'))
            (finally_released service (resolve_service service) d))
        (io.next_service c) (λ d. some (ok [], d))

  abbrev pub in_order : Rounds (List PortInfo) → Rounds (List PortInfo)
  in_order none = none
  in_order (some (raise e, c)) = some (raise e, c)
  in_order (some (ok ports, c)) = some (ok (sort_by_device ports), c)

  unfoldable pub enumerate_ports : ℕ → C → Rounds (List PortInfo)
  unfolding collect
  enumerate_ports rounds c = in_order (collect rounds c)

  -- Whether a service has the path, and its port then.
  unfoldable pub match_service : Text → ℕ → Call C (Option (Option PortInfo))
  unfolding resolve_service
  match_service path service = io.get_string service "IOCalloutDevice" >>= λ callout.
      io.get_string service "IODialinDevice" >>= λ dialin.
      if same_option path callout || same_option path dialin
      then (resolve_service service >>= λ p. pure (some p))
      else pure none

  abbrev pub or_next :
      (C → Rounds (Option PortInfo))
      → Result (Option (Option PortInfo)) × C
      → Rounds (Option PortInfo)
  or_next next (raise e, c) = some (raise e, c)
  or_next next (ok none, c) = next c
  or_next next (ok (some p), c) = some (ok p, c)

  unfoldable pub resolve_port_info : ℕ → Text → C → Rounds (Option PortInfo)
  unfolding finally_released match_service
  resolve_port_info zero path c = none
  resolve_port_info (suc rounds) path c =
      at_service
        (λ service d.
          or_next (λ d'. resolve_port_info rounds path d')
            (finally_released service (match_service path service) d))
        (io.next_service c) (λ d. some (ok none, d))
