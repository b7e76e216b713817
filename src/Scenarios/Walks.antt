-- ===== src/Scenarios/Walks.antt =====
-- The theorems about the enumerators, on a host with a few devices.
use anyserial.Base.{
  ℕ, zero, suc, leb, ◌&&◌, ◌≡◌, refl, Bool, true, false, Option, none, some, List, [], ◌∷◌, ◌++◌,
  if◌then◌else◌, arith,
}
use anyserial.Discovery.{Text, PortInfo, same_text}
use anyserial.Discovery.Texts.{codes, strip_left, strip_right}
use anyserial.Discovery.Search.{IsFirst}
use anyserial.Scenarios.Enumeration.{names}
use anyserial.Windows.Identifiers.{parse_device_ids, parse_instance_id}
use anyserial.Windows.Identifiers.Roundtrip.{
  usb_instance, ftdi_instance, parse_device_ids-usb_instance, parse_device_ids-ftdi_instance,
}
use anyserial.Windows.Discovery.{
  Interface, DeviceLists, extract_com_name, strip_com_suffix, enumerate_setupapi,
  enumerate_registry_fallback, resolve_port_info, is_wanted,
}
use anyserial.Windows.Discovery.Lookup.{resolve_port_info_ends}
use anyserial.Linux.Discovery.{Sysfs, Directory}
use anyserial.Linux.Discovery.Agreement.{AllFound, enumerate_ports-AllFound}
use anyserial.Discovery.Sorting.Stable.{All}
use anyserial.Bsd.Discovery.{DevTree, node_port}
use anyserial.Bsd.Discovery.Distinct.{AtMostOne, with_device}
use anyserial.Bsd.Discovery.Nodes.{IsFound, enumerate_ports-Listed}
use anyserial.Discovery.Adapters.{UdevDevice, normalize, device_to_port_info}

-- One function of a device that has several
composite :
    parse_device_ids (some (codes "USB\\VID_2341&PID_8036&MI_00\\7&1A2B&0&0000")) none
    ≡ (some 9025, some 32822, none)
unfolding parse_device_ids parse_instance_id
composite = refl

ftdi :
    parse_device_ids (some (codes "FTDIBUS\\VID_0403+PID_6001+BG00VBZSA\\0000")) none
    ≡ (some 1027, some 24577, some (codes "BG00VBZS"))
unfolding parse_device_ids parse_instance_id
ftdi = refl

named_com :
    extract_com_name (λ c. leb 48 c && leb c 57) (some (codes "USB Serial Port (COM13)"))
    ≡ some (codes "COM13")
unfolding extract_com_name
named_com = refl

without_com :
    strip_com_suffix (λ c. leb 48 c && leb c 57) (some (codes "USB Serial Port (COM13)"))
    ≡ some (codes "USB Serial Port")
unfolding strip_com_suffix strip_right
without_com = refl

parse_device_ids-usb_instance_example :
    parse_device_ids (some (usb_instance 9025 67 (codes "758303339383515"))) none
    ≡ (some 9025, some 67, some (codes "758303339383515"))
parse_device_ids-usb_instance_example =
    parse_device_ids-usb_instance 9025 67 55 (codes "58303339383515") none (omega arith)
      (omega arith) refl

parse_device_ids-ftdi_instance_example :
    parse_device_ids (some (ftdi_instance 1027 24577 (codes "BG00VBZSA\\0000"))) none
    ≡ (some 1027, some 24577, some (codes "BG00VBZS"))
parse_device_ids-ftdi_instance_example =
    parse_device_ids-ftdi_instance 1027 24577 66 65 (codes "G00VBZS") (codes "0000") none
      (omega arith) (omega arith) refl refl refl

-- One interface of SetupAPI, after one without detail, and one value of the registry
abbrev interface_at : ℕ → Option (Option Interface)
interface_at zero = some none
interface_at (suc zero) = some (
    some (record {
      device_path = codes "\\\\?\\usb#vid_2341";
      friendly = some (codes "Arduino Uno (COM3)");
      hardware_id = none;
      location = none;
      instance_id = some (codes "USB\\VID_2341&PID_0043\\7583");
    }))
interface_at (suc (suc n)) = none

abbrev value_at : ℕ → Option (Option Text)
value_at zero = some (some (codes "COM8"))
value_at (suc n) = none

abbrev lists : DeviceLists
lists = record {
  has_devices = true;
  interface = interface_at;
  has_winreg = true;
  has_key = true;
  value = value_at;
  is_decimal = λ c. leb 48 c && leb c 57;
}

resolve_port_info_ends_example :
    (xs : List PortInfo) × (ys : List PortInfo) × (r : Option PortInfo) × (enumerate_setupapi 3
        lists
      ≡ some xs)
    × (enumerate_registry_fallback 3 lists ≡ some ys)
    × (resolve_port_info 3 lists names (codes "com8") ≡ some r)
    × IsFirst (is_wanted names (codes "com8")) (xs ++ ys) r
resolve_port_info_ends_example =
    resolve_port_info_ends 3 lists names (codes "com8") 2 1 refl refl (omega arith) (omega arith)

-- An adapter, and a terminal without a device
abbrev adapter : Text
adapter = codes "ttyUSB0"

abbrev usb_files : Text → Option Text
usb_files file =
    if same_text file (codes "idVendor")
    then some (codes "0403\n")
    else if same_text file (codes "serial")
    then some (codes "BG00VBZS\n")
    else none

abbrev usb_dir : Directory → Bool
usb_dir [] = false
usb_dir (name ∷ up) = same_text name (codes "1-2")

abbrev sysfs : Sysfs
sysfs = record {
  has_root = true;
  names = codes "tty0" ∷ adapter ∷ [];
  is_entry = λ name. true;
  has_device = λ name. same_text name adapter;
  device_target =
      λ name. some (adapter ∷ codes "1-2" ∷ codes "usb1" ∷ codes "devices" ∷ codes "sys" ∷ []);
  is_file = λ dir file. usb_dir dir && same_text file (codes "idVendor");
  read = λ dir file. if usb_dir dir then usb_files file else none;
  int16 = λ text. if same_text text (codes "0403") then some 1027 else none;
}

enumerate_ports-AllFound_example : AllFound sysfs (anyserial.Linux.Discovery.enumerate_ports sysfs)
enumerate_ports-AllFound_example =
    enumerate_ports-AllFound sysfs ((refl, refl, refl), ((refl, refl, refl), tt))

-- Two nodes of one port, and one that is no port
abbrev dev : DevTree
dev = record {
  is_dir = true;
  names = codes "ttyU0" ∷ codes "cuaU0" ∷ codes "null" ∷ [];
  normal = λ path. path;
  matches_path = λ path pattern. false;
}

lists_both :
    anyserial.Bsd.Discovery.enumerate_ports dev "freebsd14"
    ≡ node_port (codes "/dev/cuaU0") (codes "cuaU0")
      ∷ node_port (codes "/dev/ttyU0") (codes "ttyU0")
      ∷ []
unfolding anyserial.Bsd.Discovery.enumerate_ports anyserial.Discovery.Sorting.sort_by
lists_both = refl

enumerate_ports-Listed_example :
    All (IsFound dev "freebsd14") (anyserial.Bsd.Discovery.enumerate_ports dev "freebsd14")
    × ((d : Text)
        → AtMostOne (with_device d (anyserial.Bsd.Discovery.enumerate_ports dev "freebsd14")))
enumerate_ports-Listed_example =
    enumerate_ports-Listed dev "freebsd14"
      ((refl, refl, refl), ((refl, refl, refl), ((refl, refl, refl), tt)))

placeholder : normalize (some (codes " n/a ")) ≡ none
unfolding normalize strip_left strip_right
placeholder = refl

-- A console of the kernel, which is left out
abbrev console : UdevDevice
console = record {
  device_node = some (codes "/dev/tty1");
  sys_path = some (codes "/sys/devices/virtual/tty/tty1");
  sys_name = some (codes "tty1");
  properties = λ key. none;
}

no_console : device_to_port_info (λ text. none) console ≡ none
unfolding device_to_port_info
no_console = refl
