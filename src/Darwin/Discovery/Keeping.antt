-- ===== src/Darwin/Discovery/Keeping.antt =====
-- The parts of a walk that only read, over any count on the state that reading keeps.
use anyserial.Base.{ℕ, ◌≡◌, refl, ◌∙◌, ◌||◌, String, Option, none, some, if_cases}
use anyserial.Errors.{Result, ok, raise}
use anyserial.Backend.Protocol.{Call}
use anyserial.Posix.Kernel.{resume_with, ◌>>=◌}
use anyserial.Discovery.{Text}
use anyserial.Darwin.Discovery.{
  IoKit, usb_of, resolve_usb, port_at, resolve_service, match_service, or_dialin, same_option,
}

module _ {C : Type 0} (held : C → ℕ → ℕ) where
  -- A call that leaves every count as it was.
  abbrev pub KeepsAll : {A : Type 0} → Call C A → Type 0
  KeepsAll call = (c : C) (q : ℕ) → held (call c).1 q ≡ held c q

  -- Reading a property of a service keeps the counts.
  pub record KeepsReading (io : IoKit C) : Type 0 where
    pub strings : (service : ℕ) (key : String) → KeepsAll (io.get_string service key)
    pub ids : (service : ℕ) (key : String) → KeepsAll (io.get_id service key)
    pub ints : (service : ℕ) (key : String) → KeepsAll (io.get_int service key)

  pub bind-KeepsAll :
      {A B : Type 0} (call : Call C A) (rest : A → Call C B)
      → KeepsAll call
      → ((a : A) → KeepsAll (rest a))
      → KeepsAll (call >>= rest)
  unfolding ◌>>=◌
  bind-KeepsAll call rest h k c q = go (call c) (h c q)
    where
      go : (x : Result _ × C) → held x.1 q ≡ held c q → held (resume_with rest x).1 q ≡ held c q
      go (ok a, d) e = k a d q ∙ e
      go (raise f, d) e = e

  module _ (io : IoKit C) (law : KeepsReading io) where
    pub usb_of-KeepsAll : (parent : ℕ) → KeepsAll (usb_of io parent)
    usb_of-KeepsAll parent = bind-KeepsAll _ _ (law.ints parent _) (λ location.
        bind-KeepsAll _ _ (law.ids parent _) (λ vid. bind-KeepsAll _ _ (law.ids parent _) (λ pid.
          bind-KeepsAll _ _ (law.strings parent _) (λ serial.
            bind-KeepsAll _ _ (law.strings parent _)
              (λ vendor. bind-KeepsAll _ _ (law.strings parent _) (λ product. λ c q. refl))))))

    module _ (resolves : (service : ℕ) → KeepsAll (resolve_usb io service)) where
      port_at-KeepsAll : (service : ℕ) (device : Option Text) → KeepsAll (port_at io service device)
      port_at-KeepsAll service none = λ c q. refl
      port_at-KeepsAll service (some device) =
          bind-KeepsAll _ _ (resolves service) (λ usb c q. refl)

      pub resolve_service-KeepsAll : (service : ℕ) → KeepsAll (resolve_service io service)
      unfolding resolve_service
      resolve_service-KeepsAll service = bind-KeepsAll _ _ (law.strings service _) (λ callout.
          bind-KeepsAll _ _ (law.strings service _)
            (λ dialin. port_at-KeepsAll service (or_dialin callout dialin)))

      pub match_service-KeepsAll :
          (path : Text) (service : ℕ) → KeepsAll (match_service io path service)
      unfolding match_service
      match_service-KeepsAll path service = bind-KeepsAll _ _ (law.strings service _) (λ callout.
          bind-KeepsAll _ _ (law.strings service _) (λ dialin.
            if_cases KeepsAll (same_option path callout || same_option path dialin) _ _
              (λ t. bind-KeepsAll _ _ (resolve_service-KeepsAll service) (λ p c q. refl))
              (λ f c q. refl)))
