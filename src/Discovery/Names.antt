-- ===== src/Discovery/Names.antt =====
-- A canonical name is canonical itself.
use anyserial.Base.{◌≡◌, refl, ap, ◌∙◌, true, false, [], ◌∷◌, Bool-cases, inl, inr}
use anyserial.Discovery.{Text, Naming, prefixed, strip, canonical_port_name}

-- Documented behaviour: `str.upper` of a text in upper case is that text, and it makes no prefix and
-- loses none, as these have no letters; a resolved path exists, and it is its own.
pub record ResolvesOnce (host : Naming) : Type 0 where
  pub upper_once : (s : Text) → host.upper (host.upper s) ≡ host.upper s
  pub upper_prefix : (s : Text) → prefixed (host.upper s) ≡ prefixed s
  pub resolved : (s : Text) → host.exists s ≡ true → host.exists (host.realpath s) ≡ true
  pub resolves_once :
      (s : Text) → host.exists s ≡ true → host.realpath (host.realpath s) ≡ host.realpath s

pub strip-prefixed : (s : Text) → prefixed (strip s) ≡ false
unfolding strip prefixed
strip-prefixed [] = refl
strip-prefixed (a ∷ []) = refl
strip-prefixed (a ∷ b ∷ []) = refl
strip-prefixed (a ∷ b ∷ c ∷ []) = refl
strip-prefixed (a ∷ b ∷ c ∷ d ∷ rest) = elim (Bool-cases (prefixed (a ∷ b ∷ c ∷ d ∷ rest))) [
  | inl p ↦ rw p (strip-prefixed rest)
  | inr p ↦ rw p p
]

pub strip-bare : (s : Text) → prefixed s ≡ false → strip s ≡ s
unfolding strip prefixed
strip-bare [] p = refl
strip-bare (a ∷ []) p = refl
strip-bare (a ∷ b ∷ []) p = refl
strip-bare (a ∷ b ∷ c ∷ []) p = refl
strip-bare (a ∷ b ∷ c ∷ d ∷ rest) p = rw p refl

module _ (host : Naming) (law : ResolvesOnce host) where
  pub canonical_twice :
      (s : Text)
      → canonical_port_name host (canonical_port_name host s) ≡ canonical_port_name host s
  unfolding canonical_port_name
  canonical_twice s = elim (Bool-cases host.is_windows) [
    | inl w ↦ rw w (
        ap host.upper
          (strip-bare (host.upper (strip s)) (law.upper_prefix (strip s) ∙ strip-prefixed s))
        ∙ law.upper_once (strip s))
    | inr w ↦ elim (Bool-cases (host.exists s)) [
      | inl e ↦ rw (w, e, law.resolved s e) (law.resolves_once s e)
      | inr e ↦ rw (w, e, e) refl
    ]
  ]
