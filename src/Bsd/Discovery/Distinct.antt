-- ===== src/Bsd/Discovery/Distinct.antt =====
-- No device is listed twice.
use anyserial.Base.{
  ◌≡◌, refl, sym, ap, ◌∙◌, true, false, List, [], ◌∷◌, if_cases, Bool-cases, inl, inr, arith,
}
use anyserial.Discovery.{Text, PortInfo, same_text}
use anyserial.Discovery.Sorting.Stable.{with_key}
use anyserial.Linux.Discovery.{device_of}
use anyserial.Bsd.Discovery.{is_seen, unseen}

abbrev pub AtMostOne : List PortInfo → Type 0
AtMostOne [] = Unit
AtMostOne (p ∷ []) = Unit
AtMostOne (p ∷ q ∷ ps) = false ≡ true

-- The ports with that device
abbrev pub with_device : Text → List PortInfo → List PortInfo
with_device = with_key (λ p. p.device)

same_text_refl : (s : Text) → same_text s s ≡ true
same_text_refl [] = refl
same_text_refl (c ∷ s) = ground (arith, same_text_refl s)

same_text_lem : (s t : Text) → same_text s t ≡ true → s ≡ t
same_text_lem [] [] h = refl
same_text_lem [] (d ∷ t) h = absurd (cc)
same_text_lem (c ∷ s) [] h = absurd (cc)
same_text_lem (c ∷ s) (d ∷ t) h =
    let head : c ≡ d = ground arith in
    let tail : same_text s t ≡ true = ground arith in
    ap (λ x. x ∷ s) head ∙ ap (λ l. d ∷ l) (same_text_lem s t tail)

module _ (d : Text) where
  -- A device that was seen is not listed.
  seen_out :
      (seen names : List Text) → is_seen d seen ≡ true → with_device d (unseen seen names) ≡ []
  unfolding unseen is_seen
  seen_out seen [] h = refl
  seen_out seen (name ∷ names) h = elim (Bool-cases (is_seen (device_of name) seen)) [
    | inl t ↦ rw t (seen_out seen names h)
    | inr f ↦ rw f (
        if_cases (λ ps. ps ≡ []) (same_text (device_of name) d) _ _
          (λ same.
            let here : is_seen d seen ≡ false =
              ap (λ x. is_seen x seen) (sym (same_text_lem (device_of name) d same)) ∙ f in
            absurd (cc))
          (λ other. seen_out (device_of name ∷ seen) names (ground (arith, h))))
  ]

  pub unseen-AtMostOne : (seen names : List Text) → AtMostOne (with_device d (unseen seen names))
  unfolding unseen is_seen
  unseen-AtMostOne seen [] = tt
  unseen-AtMostOne seen (name ∷ names) = elim (Bool-cases (is_seen (device_of name) seen)) [
    | inl t ↦ rw t (unseen-AtMostOne seen names)
    | inr f ↦ rw f (
        if_cases AtMostOne (same_text (device_of name) d) _ _
          (λ same.
            let here : is_seen d (device_of name ∷ seen) ≡ true =
              ap (λ x. is_seen x (device_of name ∷ seen))
                (sym (same_text_lem (device_of name) d same))
              ∙ rw (same_text_refl (device_of name)) refl in
            rw (seen_out (device_of name ∷ seen) names here) tt)
          (λ other. unseen-AtMostOne (device_of name ∷ seen) names))
  ]
