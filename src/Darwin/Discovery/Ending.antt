-- ===== src/Darwin/Discovery/Ending.antt =====
-- The walks over the services come to an end, and have given back what they took.
use anyserial.Base.{
  ℕ, zero, suc, ◌<◌, ◌≡◌, refl, ◌∙◌, Bool, true, false, Option, none, some, List, arith,
}
use anyserial.Errors.{Result, ok, raise}
use anyserial.Backend.Protocol.{Call}
use anyserial.Discovery.{Text, PortInfo}
use anyserial.Darwin.Discovery.{
  IoKit, after_body, finally_released, usb_of, with_parent, resolve_usb, resolve_service,
  match_service, with_port, go_on, at_service, collect, in_order, enumerate_ports, or_next,
  resolve_port_info,
}
use anyserial.Darwin.Discovery.Keeping.{
  KeepsAll, KeepsReading, bind-KeepsAll, usb_of-KeepsAll, resolve_service-KeepsAll,
  match_service-KeepsAll,
}
use anyserial.Darwin.Discovery.Handles.{
  CountsReferences, Returned, enumerate-Returned, resolve-Returned,
}

abbrev is_done {ℓ} : {A : Type ℓ} → Option A → Bool
is_done none = false
is_done (some a) = true

module _ {C : Type 0} (left : C → ℕ) where
  -- One service less is left after each that the generator gives.
  abbrev pub Advanced : C → Result (Option ℕ) × C → Type 0
  Advanced before (raise e, c) = Unit
  Advanced before (ok none, c) = Unit
  Advanced before (ok (some service), c) = left c < left before

  abbrev pub ever : C → ℕ → ℕ
  ever c q = left c

  -- IOKit has so many services left, and only the generator takes one.
  pub record RunsOut (io : IoKit C) : Type 0 where
    pub advances : (c : C) → Advanced c (io.next_service c)
    pub reading : KeepsReading ever io
    pub climbs : (service : ℕ) → KeepsAll ever (io.find_usb_parent service)
    pub releases : (object : ℕ) → KeepsAll ever (io.release object)

  module _ (io : IoKit C) (law : RunsOut io) where
    kept_after :
        {A : Type 0} (r : Result A) (x : Result (Unit {0}) × C)
        → left (after_body io r x).1 ≡ left x.1
    kept_after r (ok u, c) = refl
    kept_after r (raise e, c) = refl

    finally-KeepsAll :
        {A : Type 0} (object : ℕ) (body : Call C A)
        → KeepsAll ever body
        → KeepsAll ever (finally_released io object body)
    unfolding finally_released
    finally-KeepsAll object body k c q =
        kept_after (body c).0 (io.release object (body c).1)
        ∙ law.releases object (body c).1 q
        ∙ k c q

    parent-KeepsAll : (parent : Option ℕ) → KeepsAll ever (with_parent io parent)
    parent-KeepsAll none = λ c q. refl
    parent-KeepsAll (some parent) =
        finally-KeepsAll parent (usb_of io parent) (usb_of-KeepsAll ever io law.reading parent)

    usb-KeepsAll : (service : ℕ) → KeepsAll ever (resolve_usb io service)
    unfolding resolve_usb
    usb-KeepsAll service = bind-KeepsAll ever _ _ (law.climbs service) parent-KeepsAll

    at_service-done :
        {A : Type 0} (before : C) (next : ℕ → C → Option (Result A × C)) (x : Result (Option ℕ) × C)
        (done : C → Option (Result A × C))
        → Advanced before x
        → ((c : C) → is_done (done c) ≡ true)
        → ((service : ℕ) (c : C) → left c < left before → is_done (next service c) ≡ true)
        → is_done (at_service io next x done) ≡ true
    at_service-done before next (raise e, c) done h d n = refl
    at_service-done before next (ok none, c) done h d n = d c
    at_service-done before next (ok (some service), c) done h d n = n service c h

    go_on-done :
        (next : Option PortInfo → C → Option (Result (List PortInfo) × C))
        (y : Result (Option PortInfo) × C)
        → ((p : Option PortInfo) → is_done (next p y.1) ≡ true)
        → is_done (go_on io next y) ≡ true
    go_on-done next (raise e, c) n = refl
    go_on-done next (ok p, c) n = n p

    or_next-done :
        (next : C → Option (Result (Option PortInfo) × C))
        (y : Result (Option (Option PortInfo)) × C)
        → is_done (next y.1) ≡ true
        → is_done (or_next io next y) ≡ true
    or_next-done next (raise e, c) n = refl
    or_next-done next (ok none, c) n = n
    or_next-done next (ok (some p), c) n = refl

    with_port-done :
        (p : Option PortInfo) (o : Option (Result (List PortInfo) × C))
        → is_done o ≡ true
        → is_done (with_port io p o) ≡ true
    with_port-done none o h = h
    with_port-done (some p) none h = h
    with_port-done (some p) (some (raise e, c)) h = refl
    with_port-done (some p) (some (ok ports, c)) h = refl

    in_order-done :
        (o : Option (Result (List PortInfo) × C))
        → is_done o ≡ true
        → is_done (in_order io o) ≡ true
    in_order-done none h = h
    in_order-done (some (raise e, c)) h = refl
    in_order-done (some (ok ports, c)) h = refl

    collect-done : (rounds : ℕ) (c : C) → left c < rounds → is_done (collect io rounds c) ≡ true
    unfolding collect
    collect-done zero c h = absurd (omega arith)
    collect-done (suc rounds) c h =
        at_service-done c _ (io.next_service c) _ (law.advances c) (λ d. refl)
          (λ service d less.
            let body = resolve_service io service in
            let kept =
              finally-KeepsAll service body
                (resolve_service-KeepsAll ever io law.reading usb-KeepsAll service) d 0 in
            go_on-done _ (finally_released io service body d)
              (λ p. with_port-done p _ (collect-done rounds _ (omega (arith, kept)))))

    resolve-done :
        (rounds : ℕ) (path : Text) (c : C)
        → left c < rounds
        → is_done (resolve_port_info io rounds path c) ≡ true
    unfolding resolve_port_info
    resolve-done zero path c h = absurd (omega arith)
    resolve-done (suc rounds) path c h =
        at_service-done c _ (io.next_service c) _ (law.advances c) (λ d. refl)
          (λ service d less.
            let body = match_service io path service in
            let kept =
              finally-KeepsAll service body
                (match_service-KeepsAll ever io law.reading usb-KeepsAll path service) d 0 in
            or_next-done _ (finally_released io service body d)
              (resolve-done rounds path _ (omega (arith, kept))))

    enumerate-done :
        (rounds : ℕ) (c : C) → left c < rounds → is_done (enumerate_ports io rounds c) ≡ true
    unfolding enumerate_ports
    enumerate-done rounds c h = in_order-done (collect io rounds c) (collect-done rounds c h)

-- A loop that came to its end and left the counts as they were.
abbrev pub Settled : {C A : Type 0} → (C → ℕ → ℕ) → C → Option (Result A × C) → Type 0
Settled {C} {A} held before o =
    (r : Result A) × (c : C) × (o ≡ some (r, c)) × ((q : ℕ) → held c q ≡ held before q)

settled :
    {C A : Type 0} (held : C → ℕ → ℕ) (before : C) (o : Option (Result A × C))
    → is_done o ≡ true
    → Returned held before o
    → Settled held before o
settled held before none d h = absurd (cc)
settled held before (some (r, c)) d h = (r, c, refl, h)

-- Over an IOKit that counts references and has fewer services left than there are rounds, where
-- reading properties keeps both: the enumeration and the lookup end, and whether they return or
-- raise and wherever they stop, every reference to a service or a USB parent that they were handed
-- is given back.
pub enumerate_ports-Settled :
    {C : Type 0} (held : C → ℕ → ℕ) (left : C → ℕ) (io : IoKit C)
    → CountsReferences held io
    → RunsOut left io
    → (rounds : ℕ) (path : Text) (c : C) → left c < rounds
    → Settled held c (enumerate_ports io rounds c)
      × Settled held c (resolve_port_info io rounds path c)
enumerate_ports-Settled held left io counts runs rounds path c h = (
  settled held c _ (enumerate-done left io runs rounds c h)
      (enumerate-Returned held io counts rounds c),
  settled held c _ (resolve-done left io runs rounds path c h)
      (resolve-Returned held io counts rounds path c),
)
