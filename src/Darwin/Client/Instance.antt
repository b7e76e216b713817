-- ===== src/Darwin/Client/Instance.antt =====
-- The client hands out and keeps references as the walks rely on.
use anyserial.Base.{ℕ, ◌+◌, ◌==◌, ◌≡◌, refl, ap, ◌∙◌, Option, none, some, ℤ, if_cases, arith}
use anyserial.Errors.{ok}
use anyserial.Sync.Leases.{one}
use anyserial.Darwin.Discovery.Keeping.{KeepsReading}
use anyserial.Darwin.Discovery.Handles.{CountsReferences, Handed}
use anyserial.Darwin.Client.{
  Frameworks, Walk, Client, is_zero, find_usb_parent, at_raw, step_iterator, begun, matched,
  iter_serial_services, ctypes_client, on_world,
}
use anyserial.Darwin.Client.Balance.{
  given, KeepsProperties, get_string-Keeps, get_int-Keeps, CountsEntries, HandedOut,
  find_usb_parent-HandedOut,
}

-- The count of a client is that of its world.
abbrev pub of_world : {W : Type 0} → (W → ℕ → ℕ) → Client W → ℕ → ℕ
of_world count c q = count c.world q

pub reading_of :
    {W : Type 0} (count : W → ℕ → ℕ) (lib : Frameworks W)
    → KeepsProperties count lib
    → KeepsReading (of_world count) (ctypes_client lib)
reading_of count lib law = record {
  strings = λ s k c q. get_string-Keeps count lib law s k c.world q;
  ids = λ s k c q. get_int-Keeps count lib law s k c.world q;
  ints = λ s k c q. get_int-Keeps count lib law s k c.world q;
}

module _ {W : Type 0} (held : W → ℕ → ℕ) (lib : Frameworks W) (law : CountsEntries held lib) where
  handed :
      (c : Client W) (x : Option ℕ × W)
      → HandedOut held c.world x
      → Handed (of_world held) c (on_world lib (λ w. x) c)
  handed c (none, w) h = h
  handed c (some entry, w) h = h

  -- The same of a step of the generator.
  abbrev Yielded : W → Option ℕ × Client W → Type 0
  Yielded before (none, c) = (q : ℕ) → held c.world q ≡ held before q
  Yielded before (some service, c) = (q : ℕ) → held c.world q ≡ held before q + one service q

  at_raw-Yielded :
      (before : W) (iterator : ℕ) (x : ℕ × W)
      → ((q : ℕ) → held x.1 q ≡ held before q + given (x.0 == 0) x.0 q)
      → Yielded before (at_raw lib iterator x)
  at_raw-Yielded before iterator (raw, w) h =
      if_cases (Yielded before) (raw == 0) _ _
        (λ t q. law.ends iterator w q ∙ h q ∙ rw t (omega arith)) (λ f q. h q ∙ rw f refl)

  step-Yielded : (iterator : ℕ) (w : W) → Yielded w (step_iterator lib iterator w)
  unfolding step_iterator
  step-Yielded iterator w =
      at_raw-Yielded w iterator (lib.iterator_next iterator w) (law.iterates iterator w)

  since_yield :
      (before w : W) (x : Option ℕ × Client W)
      → ((q : ℕ) → held w q ≡ held before q)
      → Yielded w x
      → Yielded before x
  since_yield before w (none, c) e h = λ q. h q ∙ e q
  since_yield before w (some service, c) e h = λ q. h q ∙ ap (λ n. n + one service q) (e q)

  begun-Yielded :
      (before : W) (x : ℤ × ℕ × W)
      → ((q : ℕ) → held x.2 q ≡ held before q)
      → Yielded before (begun lib x)
  begun-Yielded before (kr, iterator, w) h =
      if_cases (Yielded before) (is_zero kr) _ _
        (λ t. since_yield before w _ h (step-Yielded iterator w)) (λ f. h)

  matched-Yielded :
      (before : W) (x : ℕ × W)
      → ((q : ℕ) → held x.1 q ≡ held before q)
      → Yielded before (matched lib x)
  matched-Yielded before (matching, w) h =
      if_cases (Yielded before) (matching == 0) _ _ (λ t. h)
        (λ f.
          begun-Yielded before (lib.matching_services matching w)
            (λ q. law.services matching w q ∙ h q))

  iter-Yielded : (walk : Walk) (w : W) → Yielded w (iter_serial_services lib walk w)
  unfolding iter_serial_services
  iter-Yielded Walk.fresh w = matched-Yielded w (lib.matching w) (law.matchings w)
  iter-Yielded (Walk.iterating iterator) w = step-Yielded iterator w
  iter-Yielded Walk.over w = λ q. refl

  yielded :
      (c : Client W) (x : Option ℕ × Client W)
      → Yielded c.world x
      → Handed (of_world held) c (ok x.0, x.1)
  yielded c (none, d) h = h
  yielded c (some service, d) h = h

  pub ctypes_client-CountsReferences : CountsReferences (of_world held) (ctypes_client lib)
  ctypes_client-CountsReferences = record {
    advances =
        λ c. yielded c (iter_serial_services lib c.walk c.world) (iter-Yielded c.walk c.world);
    climbs = λ service c.
        handed c (find_usb_parent lib service c.world)
          (find_usb_parent-HandedOut held lib law service c.world);
    reading = reading_of held lib law.reading;
    releases = λ object c q h. law.releases object c.world q h;
  }
