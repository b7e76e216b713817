-- ===== src/Linux/Discovery/Agreement.antt =====
-- The lookup of one path and the walk over all ports tell the same.
use anyserial.Base.{
  ℕ, ◌==◌, ◌≡◌, refl, ap, ◌∙◌, Bool, true, false, ◌||◌, Option, none, some, List, [], ◌∷◌, ◌++◌,
  if_cases, arith,
}
use mathlib.Core.List.{append-nil}
use anyserial.Discovery.{Text, PortInfo}
use anyserial.Discovery.Texts.{codes}
use anyserial.Discovery.Sorting.Stable.{All, sort_by-All}
use anyserial.Linux.Discovery.{
  Sysfs, Directory, slash, device_of, port_of_target, resolve_entry, resolve_all, enumerate_ports,
  kept, reversed, is_part, last_part, path_name, resolve_name, resolve_port_info, has_part,
}

abbrev pub has_slash : Text → Bool
has_slash [] = false
has_slash (c ∷ s) = (c == slash) || has_slash s

reversed-reversed : (xs ys zs : Text) → reversed (reversed xs ys) zs ≡ reversed ys (xs ++ zs)
reversed-reversed [] ys zs = refl
reversed-reversed (c ∷ xs) ys zs = reversed-reversed xs (c ∷ ys) zs

long_part : (s t : Text) (a b : ℕ) → is_part (reversed s (a ∷ b ∷ t)) ≡ true
long_part [] t a b = refl
long_part (c ∷ s) t a b = long_part s (b ∷ t) c a

is_part-reversed : (s : Text) → is_part s ≡ true → is_part (reversed s []) ≡ true
is_part-reversed [] h = h
is_part-reversed (c ∷ []) h = h
is_part-reversed (c ∷ d ∷ s) h = long_part s [] d c

-- A text without a slash is one part.
path_name-part :
    (s part last : Text)
    → has_slash s ≡ false
    → path_name s part last ≡ last_part (reversed s part) last
unfolding path_name
path_name-part [] part last h = refl
path_name-part (c ∷ s) part last h =
    let this : (c == slash) ≡ false = ground arith in
    let later : has_slash s ≡ false = ground arith in
    rw this (path_name-part s (c ∷ part) last later)

part_back : (s last : Text) → is_part s ≡ true → last_part (reversed s []) last ≡ s
part_back s last h = rw (is_part-reversed s h) (reversed-reversed s [] [] ∙ append-nil s)

-- The name of a device node is the name that the node was made of.
pub path_name-device_of :
    (name : Text)
    → has_slash name ≡ false
    → is_part name ≡ true
    → path_name (device_of name) [] [] ≡ name
unfolding path_name
path_name-device_of name h p =
    path_name-part name [] (codes "dev") h ∙ part_back name (codes "dev") p

module _ (sysfs : Sysfs) where
  -- A name in a directory, of an entry that is a directory itself.
  abbrev pub IsName : Text → Type 0
  IsName name = (has_slash name ≡ false) × (is_part name ≡ true) × (sysfs.is_entry name ≡ true)

  -- The lookup of the path of each port gives that port.
  abbrev pub AllFound : List PortInfo → Type 0
  AllFound [] = Unit
  AllFound (p ∷ ps) = (resolve_port_info sysfs p.device ≡ some p) × AllFound ps

  entered :
      (name : Text)
      → is_part name ≡ true
      → sysfs.is_entry name ≡ true
      → resolve_name sysfs name ≡ resolve_entry sysfs name
  entered [] p e = absurd (cc)
  entered (c ∷ s) p e = rw e refl

  looked_up :
      (name : Text)
      → IsName name
      → resolve_port_info sysfs (device_of name) ≡ resolve_entry sysfs name
  unfolding resolve_port_info
  looked_up name (h, p, e) =
      ap (resolve_name sysfs) (path_name-device_of name h p) ∙ entered name p e

  -- A port of an entry has the path of its device node.
  abbrev IsAt : Text → Option PortInfo → Type 0
  IsAt name none = Unit
  IsAt name (some p) = p.device ≡ device_of name

  target-IsAt : (name : Text) (o : Option Directory) → IsAt name (port_of_target sysfs name o)
  target-IsAt name none = tt
  target-IsAt name (some target) =
      if_cases (IsAt name) (has_part (codes "virtual") target) _ _ (λ t. tt) (λ f. refl)

  entry-IsAt : (name : Text) → IsAt name (resolve_entry sysfs name)
  unfolding resolve_entry
  entry-IsAt name =
      if_cases (IsAt name) (sysfs.has_device name) _ _
        (λ t. target-IsAt name (sysfs.device_target name)) (λ f. tt)

  kept-AllFound :
      (name : Text) (o : Option PortInfo) (ps : List PortInfo)
      → resolve_port_info sysfs (device_of name) ≡ o
      → IsAt name o
      → AllFound ps
      → AllFound (kept o ps)
  kept-AllFound name none ps e at h = h
  kept-AllFound name (some p) ps e at h = (ap (resolve_port_info sysfs) at ∙ e, h)

  resolve_all-AllFound : (names : List Text) → All IsName names → AllFound (resolve_all sysfs names)
  unfolding resolve_all
  resolve_all-AllFound [] h = tt
  resolve_all-AllFound (name ∷ names) (n, h) =
      kept-AllFound name (resolve_entry sysfs name) (resolve_all sysfs names) (looked_up name n)
        (entry-IsAt name) (resolve_all-AllFound names h)

  -- Where the entries of /sys/class/tty have names without a slash, other than a dot, and are
  -- directories: each port that the walk lists is what the lookup of its path gives.
  pub enumerate_ports-AllFound : All IsName sysfs.names → AllFound (enumerate_ports sysfs)
  unfolding enumerate_ports
  enumerate_ports-AllFound h =
      if_cases AllFound sysfs.has_root _ _
        (λ t. resolve_all-AllFound _ (sort_by-All (λ name. name) IsName sysfs.names h)) (λ f. tt)
