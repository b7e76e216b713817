-- ===== src/Discovery/Sorting/Stable.antt =====
-- The sort is in order, and keeps the order of elements with the same key.
use anyserial.Base.{◌≡◌, refl, ◌∙◌, true, false, List, [], ◌∷◌, if◌then◌else◌, arith, if_cases}
use anyserial.Discovery.{Text, same_text}
use anyserial.Discovery.Sorting.{text_leb, place, sort_by}

text_leb_total : (s t : Text) → text_leb s t ≡ false → text_leb t s ≡ true
text_leb_total [] t h = absurd (cc)
text_leb_total (c ∷ s) [] h = refl
text_leb_total (c ∷ s) (d ∷ t) h = ground (arith, text_leb_total s t)

-- Two texts that are the same as a third are in order.
same_in_order : (s t d : Text) → same_text s d ≡ true → same_text t d ≡ true → text_leb s t ≡ true
same_in_order [] t d h k = refl
same_in_order (c ∷ s) t [] h k = absurd (cc)
same_in_order (c ∷ s) [] (e ∷ d) h k = absurd (cc)
same_in_order (c ∷ s) (b ∷ t) (e ∷ d) h k = ground (arith, same_in_order s t d)

module _ {A : Type 0} (key : A → Text) where
  abbrev pub Ordered : List A → Type 0
  Ordered [] = Unit
  Ordered (x ∷ []) = Unit
  Ordered (x ∷ y ∷ ys) = (text_leb (key x) (key y) ≡ true) × Ordered (y ∷ ys)

  -- The elements of that key, in their order.
  abbrev pub with_key : Text → List A → List A
  with_key d [] = []
  with_key d (x ∷ xs) = if same_text (key x) d then x ∷ with_key d xs else with_key d xs

  place_after :
      (x y : A) (ys : List A)
      → text_leb (key y) (key x) ≡ true
      → Ordered (y ∷ ys)
      → Ordered (place key x ys)
      → Ordered (y ∷ place key x ys)
  unfolding place
  place_after x y [] h o p = (h, tt)
  place_after x y (z ∷ zs) h o p = ground (arith)

  tail-Ordered : (y : A) (ys : List A) → Ordered (y ∷ ys) → Ordered ys
  tail-Ordered y [] o = tt
  tail-Ordered y (z ∷ zs) o = o.1

  place-Ordered : (x : A) (ys : List A) → Ordered ys → Ordered (place key x ys)
  unfolding place
  place-Ordered x [] o = tt
  place-Ordered x (y ∷ ys) o =
      if_cases Ordered (text_leb (key x) (key y)) _ _ (λ t. (t, o))
        (λ f.
          place_after x y ys (text_leb_total (key x) (key y) f) o
            (place-Ordered x ys (tail-Ordered y ys o)))

  with_key-place :
      (d : Text) (x : A) (ys : List A) → with_key d (place key x ys) ≡ with_key d (x ∷ ys)
  unfolding place
  with_key-place d x [] = refl
  with_key-place d x (y ∷ ys) =
      ground (arith, with_key-place d x ys, same_in_order (key x) (key y) d)

  sort_by-Ordered : (xs : List A) → Ordered (sort_by key xs)
  unfolding sort_by
  sort_by-Ordered [] = tt
  sort_by-Ordered (x ∷ xs) = place-Ordered x (sort_by key xs) (sort_by-Ordered xs)

  with_key-sort_by : (d : Text) (xs : List A) → with_key d (sort_by key xs) ≡ with_key d xs
  unfolding sort_by
  with_key-sort_by d [] = refl
  with_key-sort_by d (x ∷ xs) =
      with_key-place d x (sort_by key xs) ∙ ground (arith, with_key-sort_by d xs)

  -- The result is in order, and has for every text the elements with that key that were given, each
  -- as often as it was, in the order in which they were.
  pub sort_by-IsStable :
      (xs : List A)
      → Ordered (sort_by key xs) × ((d : Text) → with_key d (sort_by key xs) ≡ with_key d xs)
  sort_by-IsStable xs = (sort_by-Ordered xs, λ d. with_key-sort_by d xs)

abbrev pub All : {A : Type 0} → (A → Type 0) → List A → Type 0
All P [] = Unit
All P (x ∷ xs) = P x × All P xs

-- What holds of every element holds of every element of the result.
module _ {A : Type 0} (key : A → Text) (P : A → Type 0) where
  place-All : (x : A) (ys : List A) → P x → All P ys → All P (place key x ys)
  unfolding place
  place-All x [] p h = (p, tt)
  place-All x (y ∷ ys) p (q, h) =
      if_cases (All P) (text_leb (key x) (key y)) _ _ (λ t. (p, (q, h)))
        (λ f. (q, place-All x ys p h))

  pub sort_by-All : (xs : List A) → All P xs → All P (sort_by key xs)
  unfolding sort_by
  sort_by-All [] h = tt
  sort_by-All (x ∷ xs) (p, h) = place-All x (sort_by key xs) p (sort_by-All xs h)
