-- ===== src/Discovery/Adapters.antt =====
-- src/anyserial/_discovery: the ports as pyserial and pyudev list them.
use anyserial.Base.{
  ℕ, ◌==◌, Bool, true, false, ◌&&◌, ◌||◌, String, Option, none, some, List, [], ◌∷◌, map,
  if◌then◌else◌,
}
use text.Mathlib.Text.{starts_with}
use anyserial.Errors.{Exn, SerialClass, Result, ok, raise, no_attributes}
use anyserial.Discovery.{Text, PortInfo, same_text}
use anyserial.Discovery.Texts.{codes, strip_text, or_none}
use anyserial.Discovery.Hwid.{format_hwid}
use anyserial.Discovery.Sorting.{sort_by_device}

-- An entry of pyserial's `comports()`: an attribute is missing or `None`, or a text.
pub record ListPortInfo : Type 0 where
  pub device : Text
  pub name : Option Text
  pub description : Option Text
  pub hwid : Option Text
  pub vid : Option ℕ
  pub pid : Option ℕ
  pub serial_number : Option Text
  pub manufacturer : Option Text
  pub product : Option Text
  pub location : Option Text
  pub interface : Option Text

-- `_normalize`: neither an empty text nor pyserial's placeholder.
abbrev pub unless_placeholder : Text → Option Text
unless_placeholder text = if same_text text (codes "n/a") then none else or_none text

unfoldable pub normalize : Option Text → Option Text
normalize none = none
normalize (some value) = unless_placeholder (strip_text value)

unfoldable pub to_port_info : ListPortInfo → PortInfo
unfolding normalize
to_port_info p = record {
  device = p.device;
  name = normalize p.name;
  description = normalize p.description;
  hwid = normalize p.hwid;
  vid = p.vid;
  pid = p.pid;
  serial_number = normalize p.serial_number;
  manufacturer = normalize p.manufacturer;
  product = normalize p.product;
  location = normalize p.location;
  interface = normalize p.interface;
}

-- `enumerate_ports` of pyserial.py; the entries, or `none` where pyserial is not installed, which
-- raises the ImportError given.
unfoldable pub enumerate_pyserial : Exn → Option (List ListPortInfo) → Result (List PortInfo)
unfolding to_port_info
enumerate_pyserial import_error none = raise import_error
enumerate_pyserial import_error (some comports) = ok (map to_port_info comports)

-- A `pyudev.Device`: its attributes, and its properties as `str` has them.
pub record UdevDevice : Type 0 where
  pub device_node : Option Text
  pub sys_path : Option Text
  pub sys_name : Option Text
  pub properties : String → Option Text

-- `needle in text`
abbrev pub begins : Text → Text → Bool
begins [] s = true
begins (c ∷ cs) [] = false
begins (c ∷ cs) (d ∷ s) = (c == d) && begins cs s

abbrev pub occurs : Text → Text → Bool
occurs needle [] = begins needle []
occurs needle (c ∷ s) = begins needle (c ∷ s) || occurs needle s

-- `a or b`
abbrev pub text_or : Option Text → Option Text → Option Text
text_or none b = b
text_or (some a) b = some a

-- `int(value, 16)`, `none` where that raises ValueError, is an argument.
module _ (int16 : Text → Option ℕ) where
  abbrev pub stripped : Option Text → Option Text
  stripped none = none
  stripped (some text) = or_none (strip_text text)

  -- `_prop`
  abbrev pub prop : UdevDevice → String → Option Text
  prop device key = stripped (device.properties key)

  abbrev pub parse_hex : Option Text → Option ℕ
  parse_hex none = none
  parse_hex (some value) = int16 value

  unfoldable pub port_of_udev : UdevDevice → Text → PortInfo
  unfolding format_hwid
  port_of_udev device node =
      let vid = parse_hex (prop device "ID_VENDOR_ID") in
      let pid = parse_hex (prop device "ID_MODEL_ID") in
      let serial_number = prop device "ID_SERIAL_SHORT" in
      let product = text_or (prop device "ID_MODEL_FROM_DATABASE") (prop device "ID_MODEL") in
      let location = prop device "ID_PATH" in
      record {
        device = node;
        name = device.sys_name;
        description = product;
        hwid = format_hwid vid pid serial_number location;
        vid = vid;
        pid = pid;
        serial_number = serial_number;
        manufacturer = text_or (prop device "ID_VENDOR_FROM_DATABASE") (prop device "ID_VENDOR");
        product = product;
        location = location;
        interface = prop device "ID_USB_INTERFACE_NUM";
      }

  abbrev pub is_virtual : Option Text → Bool
  is_virtual none = false
  is_virtual (some sys_path) = occurs (codes "/devices/virtual/") sys_path

  -- The node there is, or is empty.
  abbrev pub at_node : UdevDevice → Option Text → Option PortInfo
  at_node device none = none
  at_node device (some []) = none
  at_node device (some (c ∷ node)) =
      if is_virtual device.sys_path then none else some (port_of_udev device (c ∷ node))

  unfoldable pub device_to_port_info : UdevDevice → Option PortInfo
  unfolding port_of_udev
  device_to_port_info device = at_node device device.device_node

  abbrev pub with_info : Option PortInfo → List PortInfo → List PortInfo
  with_info none ports = ports
  with_info (some p) ports = p ∷ ports

  unfoldable pub iter_devices : List UdevDevice → List PortInfo
  unfolding device_to_port_info
  iter_devices [] = []
  iter_devices (device ∷ devices) = with_info (device_to_port_info device) (iter_devices devices)

  abbrev pub sorted_devices : Exn → Option (List UdevDevice) → Result (List PortInfo)
  sorted_devices import_error none = raise import_error
  sorted_devices import_error (some devices) = ok (sort_by_device (iter_devices devices))

  -- `enumerate_ports` of pyudev.py; the terminals, or `none` where pyudev is not installed.
  unfoldable pub enumerate_pyudev : Exn → String → Option (List UdevDevice) → Result (List PortInfo)
  unfolding iter_devices
  enumerate_pyudev import_error platform devices =
      if starts_with platform "linux"
      then sorted_devices import_error devices
      else raise (Exn.serial SerialClass.unsupported_platform no_attributes)
