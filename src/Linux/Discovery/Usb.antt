-- ===== src/Linux/Discovery/Usb.antt =====
-- Which directory the USB metadata of a port comes from.
use anyserial.Base.{
  ◌≡◌, refl, sym, ap, ◌∙◌, if_cases, true, false, Option, none, some, [], ◌∷◌, ◌++◌,
}
use anyserial.Discovery.{Text}
use anyserial.Discovery.Texts.{codes}
use anyserial.Linux.Discovery.{Sysfs, Directory, find_usb_device}

-- No directory on the way up to an ancestor is a USB device's.
abbrev pub NoneBelow : Sysfs → Directory → Directory → Type 0
NoneBelow sysfs [] dir = Unit
NoneBelow sysfs (name ∷ up) dir =
    (sysfs.is_file (name ∷ up ++ dir) (codes "idVendor") ≡ false) × NoneBelow sysfs up dir

abbrev pub NoneUp : Sysfs → Directory → Type 0
NoneUp sysfs [] = Unit
NoneUp sysfs (name ∷ up) = (sysfs.is_file (name ∷ up) (codes "idVendor") ≡ false) × NoneUp sysfs up

-- The nearest directory with an `idVendor`, the start included; `none` where there is none.
abbrev pub IsNearest : Sysfs → Directory → Option Directory → Type 0
IsNearest sysfs start none = NoneUp sysfs start
IsNearest sysfs start (some dir) =
    (below : Directory) × (start ≡ below ++ dir)
    × (sysfs.is_file dir (codes "idVendor") ≡ true)
    × NoneBelow sysfs below dir

IsNearest-up :
    (sysfs : Sysfs) (name : Text) (up : Directory) (o : Option Directory)
    → sysfs.is_file (name ∷ up) (codes "idVendor") ≡ false
    → IsNearest sysfs up o
    → IsNearest sysfs (name ∷ up) o
IsNearest-up sysfs name up none f h = (f, h)
IsNearest-up sysfs name up (some dir) f (below, e, t, h) = (
  name ∷ below,
  ap (λ d. name ∷ d) e,
  t,
  (ap (λ d. sysfs.is_file (name ∷ d) (codes "idVendor")) (sym e) ∙ f, h),
)

find_usb_device-IsNearest :
    (sysfs : Sysfs) (start : Directory) → IsNearest sysfs start (find_usb_device sysfs start)
unfolding find_usb_device
find_usb_device-IsNearest sysfs [] = tt
find_usb_device-IsNearest sysfs (name ∷ up) =
    if_cases (IsNearest sysfs (name ∷ up)) (sysfs.is_file (name ∷ up) (codes "idVendor")) _ _
      (λ t. ([], refl, t, tt))
      (λ f.
        IsNearest-up sysfs name up (find_usb_device sysfs up) f
          (find_usb_device-IsNearest sysfs up))
