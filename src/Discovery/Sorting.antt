-- ===== src/Discovery/Sorting.antt =====
-- `sort` and `sorted` of the enumerators, which go by a text of each element: a stable sort.
pub mod Stable
use anyserial.Base.{ℕ, ◌==◌, ltb, Bool, true, false, ◌&&◌, ◌||◌, List, [], ◌∷◌, if◌then◌else◌}
use anyserial.Discovery.{Text, PortInfo}

-- Python's `<=` on texts.
abbrev pub text_leb : Text → Text → Bool
text_leb [] t = true
text_leb (c ∷ s) [] = false
text_leb (c ∷ s) (d ∷ t) = ltb c d || ((c == d) && text_leb s t)

module _ {A : Type 0} (key : A → Text) where
  unfoldable pub place : A → List A → List A
  place x [] = x ∷ []
  place x (y ∷ ys) =
      let later = place x ys in if text_leb (key x) (key y) then x ∷ y ∷ ys else y ∷ later

  unfoldable pub sort_by : List A → List A
  unfolding place
  sort_by [] = []
  sort_by (x ∷ xs) = place x (sort_by xs)

-- `sort(key=lambda p: p.device)`
abbrev pub sort_by_device : List PortInfo → List PortInfo
sort_by_device = sort_by (λ p. p.device)
