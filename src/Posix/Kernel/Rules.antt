-- ===== src/Posix/Kernel/Rules.antt =====
-- What a sequence of calls keeps, from what each call keeps.
use anyserial.Base.{◌≡◌, refl, ◌∙◌, Bool, true, false, if◌then◌else◌, if_intro}
use anyserial.Errors.{Exn, Result, ok, raise, is_os_error}
use anyserial.Backend.Protocol.{Call}
use anyserial.Posix.Kernel.{resume_with, ◌>>=◌, ◌>>◌, handle, suppressed}

module _ {S : Type 0} (P : S → Type 0) where
  -- The call leaves the property as it found it, however it ends.
  abbrev pub Preserves : {A : Type 0} → Call S A → Type 0
  Preserves call = (s : S) → P s → P (call s).1

  pub resume_with-Preserves :
      {A B : Type 0} (rest : A → Call S B) (x : Result A × S)
      → P x.1
      → ((a : A) → Preserves (rest a))
      → P (resume_with rest x).1
  resume_with-Preserves rest (ok a, s) h keep = keep a s h
  resume_with-Preserves rest (raise e, s) h keep = h

  pub handle-Preserves :
      {A : Type 0} (catches : Exn → Bool) (handler : Exn → Call S A) (x : Result A × S)
      → P x.1
      → ((e : Exn) → Preserves (handler e))
      → P (handle catches handler x).1
  unfolding handle
  handle-Preserves catches handler (ok a, s) h keep = h
  handle-Preserves {A} catches handler (raise e, s) h keep =
      if_intro (λ (x : Result A × S). P x.1) (catches e) _ _ (keep e s h) h

  pub suppressed-Preserves : (x : Result (Unit {0}) × S) → P x.1 → P (suppressed x).1
  suppressed-Preserves (ok u, s) h = h
  suppressed-Preserves (raise e, s) h =
      if_intro (λ (x : Result (Unit {0}) × S). P x.1) (is_os_error e) _ _ h h

  pub bind-Preserves :
      {A B : Type 0} (call : Call S A) (rest : A → Call S B)
      → Preserves call
      → ((a : A) → Preserves (rest a))
      → Preserves (call >>= rest)
  unfolding ◌>>=◌
  bind-Preserves call rest p q s h = resume_with-Preserves rest (call s) (p s h) q

  pub if-Preserves :
      {A : Type 0} (b : Bool) (f g : Call S A)
      → Preserves f
      → Preserves g
      → Preserves (if b then f else g)
  if-Preserves true f g p q = p
  if-Preserves false f g p q = q

-- A body that returned got past its first call.
module _ {S A B : Type 0} where
  pub resumed_ok :
      (x : Result A × S) (rest : A → Call S B) {b : B}
      → (resume_with rest x).0 ≡ ok b
      → (a : A) × (x.0 ≡ ok a) × (resume_with rest x ≡ rest a x.1)
  resumed_ok (ok a, s) rest h = (a, refl, refl)
  resumed_ok (raise e, s) rest h = cc

-- What a view of the state shows is the same after the call, however it ends.
module _ {S V : Type 0} (view : S → V) where
  abbrev pub Keeps : {A : Type 0} → Call S A → Type 0
  Keeps call = (s : S) → view (call s).1 ≡ view s

  pub bind-Keeps :
      {A B : Type 0} (call : Call S A) (rest : A → Call S B)
      → Keeps call
      → ((a : A) → Keeps (rest a))
      → Keeps (call >>= rest)
  unfolding ◌>>=◌
  bind-Keeps call rest p q s =
      resume_with-Preserves (λ t. view t ≡ view s) rest (call s) (p s) (λ a t h. q a t ∙ h)

  pub then-Keeps :
      {A B : Type 0} (call : Call S A) (rest : Call S B)
      → Keeps call
      → Keeps rest
      → Keeps (call >> rest)
  then-Keeps call rest p q = bind-Keeps call (λ _. rest) p (λ _. q)

  pub handle-Keeps :
      {A : Type 0} (catches : Exn → Bool) (handler : Exn → Call S A) (call : Call S A)
      → Keeps call
      → ((e : Exn) → Keeps (handler e))
      → Keeps (λ s. handle catches handler (call s))
  handle-Keeps catches handler call p q s =
      handle-Preserves (λ t. view t ≡ view s) catches handler (call s) (p s) (λ e t h. q e t ∙ h)

  pub if-Keeps :
      {A : Type 0} (b : Bool) (f g : Call S A) → Keeps f → Keeps g → Keeps (if b then f else g)
  if-Keeps true f g p q = p
  if-Keeps false f g p q = q
