-- ===== src/Darwin/Client/Values.antt =====
-- The CoreFoundation values that the client's calls create and release.
use anyserial.Base.{
  ℕ, zero, suc, ◌+◌, ◌<◌, ◌==◌, ◌≡◌, refl, ◌∙◌, false, not, ◌||◌, String, Option, none, some, ℤ,
  if_cases, arith,
}
use anyserial.Sync.Leases.{one}
use anyserial.Darwin.Client.{
  Frameworks, is_zero, read_property, decode_property, cfstring_to_str, get_string, get_int,
  or_climb, at_parent, climb, find_usb_parent,
}
use anyserial.Darwin.Client.Balance.{given}

-- Documented behaviour of CoreFoundation, by the references to its values: a function with `Create`
-- in its name gives one, `CFRelease` takes one, and the calls of IOKit keep them.
pub record CountsValues {W : Type 0} (cf : W → ℕ → ℕ) (lib : Frameworks W) : Type 0 where
  pub strings :
      (key : String) (w : W) (q : ℕ)
      → let (value, w') = lib.create_string key w in cf w' q ≡ cf w q + given (value == 0) value q
  pub properties :
      (service key : ℕ) (w : W) (q : ℕ)
      → let (value, w') = lib.create_property service key w in
        cf w' q ≡ cf w q + given (value == 0) value q
  pub releases :
      (value : ℕ) (w : W) (q : ℕ)
      → 0 < cf w value
      → cf (lib.cf_release value w) q + one value q ≡ cf w q
  pub parents : (entry : ℕ) (w : W) (q : ℕ) → cf (lib.parent_entry entry w).2 q ≡ cf w q
  pub entries : (entry : ℕ) (w : W) (q : ℕ) → cf (lib.release_entry entry w) q ≡ cf w q

module _ {W : Type 0} (cf : W → ℕ → ℕ) (lib : Frameworks W) where
  -- No reference was left behind, or none but one to the value that was read of the entry found, under
  -- `idVendor`.
  abbrev pub Leaves : W → Option ℕ × W → Type 0
  Leaves before (none, w) = (q : ℕ) → cf w q ≡ cf before q
  Leaves before (some entry, w) =
      (value : ℕ) × (v : W) × ((read_property lib entry "idVendor" v).0 ≡ value)
      × ((value == 0) ≡ false)
      × ((q : ℕ) → cf w q ≡ cf before q + one value q)

module _ {W : Type 0} (cf : W → ℕ → ℕ) (lib : Frameworks W) (law : CountsValues cf lib) where
  one_there : (q : ℕ) → one q q ≡ 1
  one_there q = ground arith

  -- One reference to the value that was read, if any.
  read_property-one :
      (service : ℕ) (key : String) (w : W) (q : ℕ)
      → let (value, w') = read_property lib service key w in
        cf w' q ≡ cf w q + given (value == 0) value q
  unfolding read_property
  read_property-one service key w q =
      let (cf_key, w1) = lib.create_string key w in
      if_cases (λ (x : ℕ × W). cf x.1 q ≡ cf w q + given (x.0 == 0) x.0 q) (cf_key == 0) _ _
        (λ t. law.strings key w q ∙ rw t refl)
        (λ f.
          let (value, w2) = lib.create_property service cf_key w1 in
          let key_there : cf w1 cf_key ≡ cf w cf_key + one cf_key cf_key =
            law.strings key w cf_key ∙ rw f refl in
          let key_q : cf w1 q ≡ cf w q + one cf_key q = law.strings key w q ∙ rw f refl in
          omega (
            arith,
            key_q,
            law.properties service cf_key w1 q,
            law.releases cf_key w2 q (
                omega
                  (arith, key_there, one_there cf_key, law.properties service cf_key w1 cf_key)),
          ))

  decoded-none :
      {A : Type 0} (decode : ℕ → W → Option A) (before : W) (x : ℕ × W)
      → ((q : ℕ) → cf x.1 q ≡ cf before q + given (x.0 == 0) x.0 q)
      → (q : ℕ) → cf (decode_property lib decode x).1 q ≡ cf before q
  decoded-none decode before (value, w) h q =
      if_cases (λ (y : Option _ × W). cf y.1 q ≡ cf before q) (value == 0) _ _
        (λ t. h q ∙ rw t (omega arith))
        (λ f.
          let here : cf w q ≡ cf before q + one value q = h q ∙ rw f refl in
          let there : cf w value ≡ cf before value + one value value = h value ∙ rw f refl in
          omega (arith, here, law.releases value w q (omega (arith, there, one_there value))))

  or_climb-Leaves :
      (before v : W) (parent : ℕ) (next : ℕ → W → Option ℕ × W) (x : ℕ × W)
      → (read_property lib parent "idVendor" v).0 ≡ x.0
      → ((q : ℕ) → cf x.1 q ≡ cf before q + given (x.0 == 0) x.0 q)
      → ((v : W) → ((q : ℕ) → cf v q ≡ cf before q) → Leaves cf lib before (next parent v))
      → Leaves cf lib before (or_climb lib parent next x)
  or_climb-Leaves before u parent next (value, w) e h n =
      if_cases (Leaves cf lib before) (value == 0) _ _
        (λ t. n _ (λ q. law.entries parent w q ∙ h q ∙ rw t (omega arith)))
        (λ f. (value, u, e, f, λ q. h q ∙ rw f refl))

  at_parent-Leaves :
      (before : W) (next : ℕ → W → Option ℕ × W) (x : ℤ × ℕ × W)
      → ((q : ℕ) → cf x.2 q ≡ cf before q)
      → ((parent : ℕ) (v : W)
          → ((q : ℕ) → cf v q ≡ cf before q)
          → Leaves cf lib before (next parent v))
      → Leaves cf lib before (at_parent lib next x)
  at_parent-Leaves before next (kr, parent, w) h n =
      if_cases (Leaves cf lib before) (not (is_zero kr) || (parent == 0)) _ _ (λ t. h)
        (λ f.
          or_climb-Leaves before w parent next (read_property lib parent "idVendor" w) refl
            (λ q. omega (arith, read_property-one parent "idVendor" w q, h q)) (n parent))

  climb-Leaves :
      (hops cursor : ℕ) (before w : W)
      → ((q : ℕ) → cf w q ≡ cf before q)
      → Leaves cf lib before (climb lib hops cursor w)
  unfolding climb
  climb-Leaves zero cursor before w h = h
  climb-Leaves (suc hops) cursor before w h =
      at_parent-Leaves before (climb lib hops) (lib.parent_entry cursor w)
        (λ q. law.parents cursor w q ∙ h q) (λ parent v k. climb-Leaves hops parent before v k)

  -- Over a CoreFoundation that counts the references to its values: `get_string` and `get_int` leave
  -- none behind; `find_usb_parent` leaves none where it finds no ancestor, and where it finds one,
  -- exactly one, to the value of `idVendor` that it read and nobody releases.
  pub find_usb_parent-Leaves :
      (service : ℕ) (key : String) (w : W)
      → ((q : ℕ) → cf (get_string lib service key w).1 q ≡ cf w q)
        × ((q : ℕ) → cf (get_int lib service key w).1 q ≡ cf w q)
        × Leaves cf lib w (find_usb_parent lib service w)
  unfolding get_string get_int find_usb_parent
  find_usb_parent-Leaves service key w = (
    decoded-none (cfstring_to_str lib) w (read_property lib service key w)
        (read_property-one service key w),
    decoded-none lib.number_value w (read_property lib service key w)
        (read_property-one service key w),
    climb-Leaves 32 service w w (λ q. refl),
  )
