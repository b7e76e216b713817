-- ===== src/Darwin/Client/Balance.antt =====
-- What IOKit and CoreFoundation count, and what the client's calls make of it.
use anyserial.Base.{
  ℕ, zero, suc, ◌+◌, ◌<◌, ◌==◌, ◌≡◌, refl, ap, ◌∙◌, Bool, not, ◌||◌, String, Option, none, some, ℤ,
  if◌then◌else◌, if_cases, arith,
}
use anyserial.Sync.Leases.{one}
use anyserial.Darwin.Client.{
  Frameworks, is_zero, read_property, decode_property, cfstring_to_str, get_string, get_int,
  or_climb, at_parent, climb, find_usb_parent,
}

-- One more of a number that is not 0, where there is one.
abbrev pub given : Bool → ℕ → ℕ → ℕ
given missing n q = if missing then 0 else one n q

module _ {W : Type 0} (count : W → ℕ → ℕ) (lib : Frameworks W) where
  -- Working with properties leaves the counts as they were.
  pub record KeepsProperties : Type 0 where
    pub strings : (key : String) (w : W) (q : ℕ) → count (lib.create_string key w).1 q ≡ count w q
    pub properties :
        (service key : ℕ) (w : W) (q : ℕ)
        → count (lib.create_property service key w).1 q ≡ count w q
    pub releases : (value : ℕ) (w : W) (q : ℕ) → count (lib.cf_release value w) q ≡ count w q

  module _ (law : KeepsProperties) where
    pub read_property-Keeps :
        (service : ℕ) (key : String) (w : W) (q : ℕ)
        → count (read_property lib service key w).1 q ≡ count w q
    unfolding read_property
    read_property-Keeps service key w q =
        let (cf_key, w1) = lib.create_string key w in
        if_cases (λ (x : ℕ × W). count x.1 q ≡ count w q) (cf_key == 0) _ _
          (λ t. law.strings key w q)
          (λ f.
            let w2 = (lib.create_property service cf_key w1).1 in
            law.releases cf_key w2 q ∙ law.properties service cf_key w1 q ∙ law.strings key w q)

    decoded-Keeps :
        {A : Type 0} (decode : ℕ → W → Option A) (x : ℕ × W) (q : ℕ)
        → count (decode_property lib decode x).1 q ≡ count x.1 q
    decoded-Keeps decode (value, w) q =
        if_cases (λ (y : Option _ × W). count y.1 q ≡ count w q) (value == 0) _ _ (λ t. refl)
          (λ f. law.releases value w q)

    pub get_string-Keeps :
        (service : ℕ) (key : String) (w : W) (q : ℕ)
        → count (get_string lib service key w).1 q ≡ count w q
    unfolding get_string
    get_string-Keeps service key w q =
        decoded-Keeps (cfstring_to_str lib) (read_property lib service key w) q
        ∙ read_property-Keeps service key w q

    pub get_int-Keeps :
        (service : ℕ) (key : String) (w : W) (q : ℕ)
        → count (get_int lib service key w).1 q ≡ count w q
    unfolding get_int
    get_int-Keeps service key w q =
        decoded-Keeps lib.number_value (read_property lib service key w) q
        ∙ read_property-Keeps service key w q

-- Documented behaviour of IOKit, by its references to entries of the registry: the iterator and the
-- lookup of a parent hand out an entry with a reference of its own, `IOObjectRelease` takes one, and
-- nothing else changes them.
pub record CountsEntries {W : Type 0} (held : W → ℕ → ℕ) (lib : Frameworks W) : Type 0 where
  pub reading : KeepsProperties held lib
  pub matchings : (w : W) (q : ℕ) → held (lib.matching w).1 q ≡ held w q
  pub services :
      (matching : ℕ) (w : W) (q : ℕ) → held (lib.matching_services matching w).2 q ≡ held w q
  pub iterates :
      (iterator : ℕ) (w : W) (q : ℕ)
      → let (raw, w') = lib.iterator_next iterator w in
        held w' q ≡ held w q + given (raw == 0) raw q
  pub ends : (iterator : ℕ) (w : W) (q : ℕ) → held (lib.release_iterator iterator w) q ≡ held w q
  pub parents :
      (entry : ℕ) (w : W) (q : ℕ)
      → let (kr, parent, w') = lib.parent_entry entry w in
        held w' q ≡ held w q + given (not (is_zero kr) || (parent == 0)) parent q
  pub releases :
      (entry : ℕ) (w : W) (q : ℕ)
      → 0 < held w entry
      → held (lib.release_entry entry w) q + one entry q ≡ held w q

-- An entry that was handed out has one reference more.
abbrev pub HandedOut : {W : Type 0} → (W → ℕ → ℕ) → W → Option ℕ × W → Type 0
HandedOut held before (none, w) = (q : ℕ) → held w q ≡ held before q
HandedOut held before (some entry, w) = (q : ℕ) → held w q ≡ held before q + one entry q

module _ {W : Type 0} (held : W → ℕ → ℕ) (lib : Frameworks W) (law : CountsEntries held lib) where
  one_of : (q : ℕ) → one q q ≡ 1
  one_of q = ground arith

  since :
      (before w : W) (x : Option ℕ × W)
      → ((q : ℕ) → held w q ≡ held before q)
      → HandedOut held w x
      → HandedOut held before x
  since before w (none, v) e h = λ q. h q ∙ e q
  since before w (some entry, v) e h = λ q. h q ∙ ap (λ n. n + one entry q) (e q)

  or_climb-HandedOut :
      (before w : W) (parent : ℕ) (next : ℕ → W → Option ℕ × W) (x : ℕ × W)
      → ((q : ℕ) → held w q ≡ held before q + one parent q)
      → ((q : ℕ) → held x.1 q ≡ held w q)
      → ((v : W) → HandedOut held v (next parent v))
      → HandedOut held before (or_climb lib parent next x)
  or_climb-HandedOut before w parent next (value, v) h k n =
      if_cases (HandedOut held before) (value == 0) _ _
        (λ t.
          since before _ _
            (λ q. omega (
              arith,
              h q,
              k q,
              law.releases parent v q (omega (arith, h parent, k parent, one_of parent)),
            ))
            (n (lib.release_entry parent v)))
        (λ f q. k q ∙ h q)

  at_parent-HandedOut :
      (before : W) (next : ℕ → W → Option ℕ × W) (x : ℤ × ℕ × W)
      → ((q : ℕ) → held x.2 q ≡ held before q + given (not (is_zero x.0) || (x.1 == 0)) x.1 q)
      → ((parent : ℕ) (v : W) → HandedOut held v (next parent v))
      → HandedOut held before (at_parent lib next x)
  at_parent-HandedOut before next (kr, parent, w) h n =
      if_cases (HandedOut held before) (not (is_zero kr) || (parent == 0)) _ _
        (λ t q. h q ∙ rw t (omega arith))
        (λ f.
          or_climb-HandedOut before w parent next (read_property lib parent "idVendor" w)
            (λ q. h q ∙ rw f refl)
            (λ q. read_property-Keeps held lib law.reading parent "idVendor" w q) (n parent))

  climb-HandedOut : (hops cursor : ℕ) (w : W) → HandedOut held w (climb lib hops cursor w)
  unfolding climb
  climb-HandedOut zero cursor w = λ q. refl
  climb-HandedOut (suc hops) cursor w =
      at_parent-HandedOut w _ (lib.parent_entry cursor w) (law.parents cursor w)
        (climb-HandedOut hops)

  pub find_usb_parent-HandedOut :
      (service : ℕ) (w : W) → HandedOut held w (find_usb_parent lib service w)
  unfolding find_usb_parent
  find_usb_parent-HandedOut service w = climb-HandedOut 32 service w
