-- ===== src/Linux/Discovery.antt =====
-- src/anyserial/_linux/discovery.py: the ports under /sys/class/tty.
pub mod Agreement
pub mod Usb
use anyserial.Base.{
  ℕ, ◌==◌, Bool, true, false, ◌||◌, ◌&&◌, Option, none, some, List, [], ◌∷◌, ◌++◌, if◌then◌else◌,
}
use anyserial.Discovery.{Text, PortInfo, same_text}
use anyserial.Discovery.Texts.{codes, strip_text, or_none}
use anyserial.Discovery.Hwid.{format_hwid}
use anyserial.Discovery.Sorting.{sort_by}

-- The directory that a link resolves to: the names on the way to it, the last one first.
abbrev pub Directory : Type 0
Directory = List Text

-- What sysfs answers during a walk, and `int(text, 16)`, `none` where that raises ValueError.
pub record Sysfs : Type 0 where
  -- `sys_root.is_dir()` and the names of `sys_root.iterdir()`
  pub has_root : Bool
  pub names : List Text
  -- `(sys_root / name).is_dir()`, and its link `device`: whether it exists and what it resolves to
  pub is_entry : Text → Bool
  pub has_device : Text → Bool
  pub device_target : Text → Option Directory
  -- a file of a directory, and its text if it can be read
  pub is_file : Directory → Text → Bool
  pub read : Directory → Text → Option Text
  pub int16 : Text → Option ℕ

-- `_UsbInfo`
pub record UsbInfo : Type 0 where
  pub vid : Option ℕ
  pub pid : Option ℕ
  pub serial_number : Option Text
  pub manufacturer : Option Text
  pub product : Option Text
  pub location : Option Text
  pub interface : Option Text

abbrev pub slash : ℕ
slash = 47

abbrev pub stripped : Option Text → Option Text
stripped none = none
stripped (some text) = or_none (strip_text text)

-- `_read_text`
abbrev pub read_text : Sysfs → Directory → Text → Option Text
read_text sysfs dir file = stripped (sysfs.read dir file)

abbrev pub parse_hex : Sysfs → Option Text → Option ℕ
parse_hex sysfs none = none
parse_hex sysfs (some value) = sysfs.int16 value

-- The walk up ends at the root, which is not looked at.
unfoldable pub find_usb_device : Sysfs → Directory → Option Directory
find_usb_device sysfs [] = none
find_usb_device sysfs (name ∷ up) =
    let above = find_usb_device sysfs up in
    if sysfs.is_file (name ∷ up) (codes "idVendor") then some (name ∷ up) else above

-- `.name` of a directory
abbrev pub base_name : Directory → Text
base_name [] = []
base_name (name ∷ up) = name

abbrev pub usb_info : Sysfs → Option Text → Option Directory → UsbInfo
usb_info sysfs interface none = record {
  vid = none;
  pid = none;
  serial_number = none;
  manufacturer = none;
  product = none;
  location = none;
  interface = interface;
}
usb_info sysfs interface (some dir) = record {
  vid = parse_hex sysfs (read_text sysfs dir (codes "idVendor"));
  pid = parse_hex sysfs (read_text sysfs dir (codes "idProduct"));
  serial_number = read_text sysfs dir (codes "serial");
  manufacturer = read_text sysfs dir (codes "manufacturer");
  product = read_text sysfs dir (codes "product");
  location = some (base_name dir);
  interface = interface;
}

unfoldable pub resolve_usb : Sysfs → Directory → UsbInfo
unfolding find_usb_device
resolve_usb sysfs target =
    usb_info sysfs (read_text sysfs target (codes "interface")) (find_usb_device sysfs target)

-- `"virtual" in device_target.parts`
abbrev pub has_part : Text → Directory → Bool
has_part part [] = false
has_part part (name ∷ up) = same_text name part || has_part part up

-- `str(dev_root / name)`
abbrev pub device_of : Text → Text
device_of name = codes "/dev/" ++ name

abbrev pub port_of : Text → UsbInfo → PortInfo
port_of name usb = record {
  device = device_of name;
  name = some name;
  description = usb.product;
  hwid = format_hwid usb.vid usb.pid usb.serial_number usb.location;
  vid = usb.vid;
  pid = usb.pid;
  serial_number = usb.serial_number;
  manufacturer = usb.manufacturer;
  product = usb.product;
  location = usb.location;
  interface = usb.interface;
}

abbrev pub port_of_target : Sysfs → Text → Option Directory → Option PortInfo
port_of_target sysfs name none = none
port_of_target sysfs name (some target) =
    if has_part (codes "virtual") target
    then none
    else some (port_of name (resolve_usb sysfs target))

unfoldable pub resolve_entry : Sysfs → Text → Option PortInfo
unfolding resolve_usb format_hwid
resolve_entry sysfs name =
    if sysfs.has_device name then port_of_target sysfs name (sysfs.device_target name) else none

abbrev pub kept : Option PortInfo → List PortInfo → List PortInfo
kept none ports = ports
kept (some p) ports = p ∷ ports

unfoldable pub resolve_all : Sysfs → List Text → List PortInfo
unfolding resolve_entry
resolve_all sysfs [] = []
resolve_all sysfs (name ∷ names) = kept (resolve_entry sysfs name) (resolve_all sysfs names)

unfoldable pub enumerate_ports : Sysfs → List PortInfo
unfolding resolve_all
enumerate_ports sysfs =
    if sysfs.has_root then resolve_all sysfs (sort_by (λ name. name) sysfs.names) else []

-- `Path(path).name`: the last part that is neither empty nor a dot. `part` is what was read of the
-- part at hand, the last character first, and `last` the part before it.
abbrev pub reversed : Text → Text → Text
reversed [] s = s
reversed (c ∷ cs) s = reversed cs (c ∷ s)

abbrev pub is_part : Text → Bool
is_part [] = false
is_part (c ∷ []) = if c == 46 then false else true
is_part (c ∷ d ∷ s) = true

abbrev pub last_part : Text → Text → Text
last_part part last = if is_part part then reversed part [] else last

unfoldable pub path_name : Text → Text → Text → Text
path_name [] part last = last_part part last
path_name (c ∷ s) part last =
    path_name s (if c == slash then [] else c ∷ part)
      (if c == slash then last_part part last else last)

abbrev pub resolve_name : Sysfs → Text → Option PortInfo
resolve_name sysfs [] = none
resolve_name sysfs (c ∷ s) = if sysfs.is_entry (c ∷ s) then resolve_entry sysfs (c ∷ s) else none

unfoldable pub resolve_port_info : Sysfs → Text → Option PortInfo
unfolding path_name resolve_entry
resolve_port_info sysfs path = resolve_name sysfs (path_name path [] [])
