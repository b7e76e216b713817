-- ===== src/Windows/Discovery/Lookup.antt =====
-- The lookup of one port, over both enumerations.
use anyserial.Base.{
  ℕ, zero, suc, ◌+◌, ◌<◌, ◌≡◌, refl, sym, ap, ◌∙◌, subst, Bool, true, false, ◌&&◌, Option, none,
  some, List, [], ◌∷◌, ◌++◌, arith, if◌then◌else◌,
}
use mathlib.Core.List.{append_assoc}
use anyserial.Discovery.{Text, PortInfo, Naming, first_match}
use anyserial.Discovery.Search.{NoneOf, IsFirst, first_match-IsFirst}
use anyserial.Windows.Discovery.{
  DeviceLists, entries_from, with_first, enumerate_setupapi, enumerate_registry_fallback, or_first,
  is_wanted, resolve_port_info, port_if_named, port_of_interface,
}

-- The loop ends once there is a round for the index without an entry.
abbrev Ends : Option (List PortInfo) → Type 0
Ends o = (ports : List PortInfo) × (o ≡ some ports)

with_first-Ends :
    (p : Option PortInfo) (o : Option (List PortInfo)) → Ends o → Ends (with_first p o)
with_first-Ends none none (ports, e) = (ports, e)
with_first-Ends (some q) none (ports, e) = absurd (cc)
with_first-Ends none (some ps) h = (ps, refl)
with_first-Ends (some q) (some ps) h = (q ∷ ps, refl)

module _ {A : Type 0} (make : A → Option PortInfo) (entry : ℕ → Option (Option A)) where
  entry-Ends :
      (o : Option (Option A)) (rest : Option (List PortInfo))
      → Ends rest
      → Ends
          (elim o [ none ↦ some [] | some none ↦ rest | some (some a) ↦ with_first (make a) rest ])
  entry-Ends none rest h = ([], refl)
  entry-Ends (some none) rest h = h
  entry-Ends (some (some a)) rest h = with_first-Ends (make a) rest h

  entries_from-Ends :
      (rounds index n : ℕ)
      → entry (index + n) ≡ none
      → n < rounds
      → Ends (entries_from make entry rounds index)
  unfolding entries_from
  entries_from-Ends zero index n e h = absurd (omega arith)
  entries_from-Ends (suc rounds) index zero e h =
      let here : entry index ≡ none = ap entry (let z : index ≡ index + 0 = omega arith in z) ∙ e in
      subst
        (λ o. Ends (elim o [
          | none ↦ some []
          | some none ↦ entries_from make entry rounds (suc index)
          | some (some a) ↦ with_first (make a) (entries_from make entry rounds (suc index))
        ]))
        (sym here) ([], refl)
  entries_from-Ends (suc rounds) index (suc n) e h =
      entry-Ends (entry index) (entries_from make entry rounds (suc index)) (
        entries_from-Ends rounds (suc index) n
          (ap entry (let z : suc index + n ≡ index + suc n = omega arith in z) ∙ e) (omega arith))

if-Ends : (b : Bool) (o : Option (List PortInfo)) → Ends o → Ends (if b then o else some [])
if-Ends true o h = h
if-Ends false o h = ([], refl)

NoneOf-append :
    (test : PortInfo → Bool) (xs ys : List PortInfo)
    → NoneOf test xs
    → NoneOf test ys
    → NoneOf test (xs ++ ys)
NoneOf-append test [] ys h k = k
NoneOf-append test (x ∷ xs) ys (a, h) k = (a, NoneOf-append test xs ys h k)

skipped :
    (test : PortInfo → Bool) (xs ys : List PortInfo) (r : Option PortInfo)
    → NoneOf test xs
    → IsFirst test ys r
    → IsFirst test (xs ++ ys) r
skipped test xs ys none h k = NoneOf-append test xs ys h k
skipped test xs ys (some p) h (before, after, e, n, t) = (
  xs ++ before,
  after,
  ap (λ l. xs ++ l) e ∙ sym (append_assoc xs before (p ∷ after)),
  NoneOf-append test xs before h n,
  t,
)

-- The first match of one list, and then of the other.
joined-IsFirst :
    (test : PortInfo → Bool) (xs ys : List PortInfo) (o : Option PortInfo)
    → IsFirst test xs o
    → (r : Option PortInfo) × (or_first test (some ys) o ≡ some r) × IsFirst test (xs ++ ys) r
joined-IsFirst test xs ys (some p) (before, after, e, n, t) = (
  some p,
  refl,
  (before, after ++ ys, ap (λ l. l ++ ys) e ∙ append_assoc before (p ∷ after) ys, n, t),
)
joined-IsFirst test xs ys none n =
    let r = first_match test ys in (r, refl, skipped test xs ys r n (first_match-IsFirst test ys))

-- Where SetupAPI and the registry each have an index without an entry, rounds beyond both are enough:
-- both enumerations end, and the lookup answers the first port of the one list and then of the other
-- whose canonical name is that of the path, or none where no port of either has it.
pub resolve_port_info_ends :
    (rounds : ℕ) (lists : DeviceLists) (host : Naming) (path : Text) (n m : ℕ)
    → lists.interface n ≡ none
    → lists.value m ≡ none
    → n < rounds
    → m < rounds
    → (xs : List PortInfo) × (ys : List PortInfo) × (r : Option PortInfo) × (enumerate_setupapi
          rounds lists
        ≡ some xs)
      × (enumerate_registry_fallback rounds lists ≡ some ys)
      × (resolve_port_info rounds lists host path ≡ some r)
      × IsFirst (is_wanted host path) (xs ++ ys) r
unfolding enumerate_setupapi enumerate_registry_fallback resolve_port_info
resolve_port_info_ends rounds lists host path n m e f h k =
    let (xs, p) = if-Ends lists.has_devices _ (
      entries_from-Ends (λ i. some (port_of_interface lists.is_decimal i)) lists.interface rounds 0
        n (ap lists.interface (let z : 0 + n ≡ n = omega arith in z) ∙ e) h) in
    let (ys, q) = if-Ends (lists.has_winreg && lists.has_key) _ (
      entries_from-Ends port_if_named lists.value rounds 0 m
        (ap lists.value (let z : 0 + m ≡ m = omega arith in z) ∙ f) k) in
    let test = is_wanted host path in
    let (r, t, i) = joined-IsFirst test xs ys (first_match test xs) (first_match-IsFirst test xs) in
    (xs, ys, r, p, q, rw (p, q) t, i)
