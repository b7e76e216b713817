-- ===== src/Darwin/Discovery/Handles.antt =====
-- The references to IOKit's objects that a walk takes and gives back.
use anyserial.Base.{ℕ, zero, suc, ◌+◌, ◌<◌, ◌≡◌, refl, ap, ◌∙◌, Option, none, some, List, arith}
use anyserial.Errors.{Result, ok, raise}
use anyserial.Backend.Protocol.{Call}
use anyserial.Posix.Kernel.{resume_with, ◌>>=◌}
use anyserial.Discovery.{Text, PortInfo}
use anyserial.Sync.Leases.{one}
use anyserial.Darwin.Discovery.Keeping.{
  KeepsAll, KeepsReading, usb_of-KeepsAll, resolve_service-KeepsAll, match_service-KeepsAll,
}
use anyserial.Darwin.Discovery.{
  IoKit, after_body, finally_released, usb_of, with_parent, resolve_usb, resolve_service, with_port,
  go_on, at_service, collect, in_order, enumerate_ports, match_service, or_next, resolve_port_info,
}

module _ {C : Type 0} (held : C → ℕ → ℕ) where
  -- An object that was handed out has one reference more.
  abbrev pub Handed : C → Result (Option ℕ) × C → Type 0
  Handed before (raise e, c) = (q : ℕ) → held c q ≡ held before q
  Handed before (ok none, c) = (q : ℕ) → held c q ≡ held before q
  Handed before (ok (some object), c) = (q : ℕ) → held c q ≡ held before q + one object q

  -- Documented behaviour of IOKit: the next service and the USB parent are handed out with a
  -- reference of their own, which `release` takes; reading a property keeps the references.
  pub record CountsReferences (io : IoKit C) : Type 0 where
    pub advances : (c : C) → Handed c (io.next_service c)
    pub climbs : (service : ℕ) (c : C) → Handed c (io.find_usb_parent service c)
    pub reading : KeepsReading held io
    pub releases :
        (object : ℕ) (c : C) (q : ℕ)
        → 0 < held c object
        → held (io.release object c).1 q + one object q ≡ held c q

  -- A loop that came to its end has given everything back.
  abbrev pub Returned : {A : Type 0} → C → Option (Result A × C) → Type 0
  Returned before none = Unit
  Returned before (some (r, c)) = (q : ℕ) → held c q ≡ held before q

  module _ (io : IoKit C) (law : CountsReferences io) where
    one_self : (q : ℕ) → one q q ≡ 1
    one_self q = ground arith

    after_body_state :
        {A : Type 0} (r : Result A) (x : Result (Unit {0}) × C) → (after_body io r x).1 ≡ x.1
    after_body_state r (ok u, c) = refl
    after_body_state r (raise e, c) = refl

    -- A body under a reference leaves one reference less.
    released :
        {A : Type 0} (object : ℕ) (body : Call C A) (c : C) (q : ℕ)
        → KeepsAll held body
        → 0 < held c object
        → held (finally_released io object body c).1 q + one object q ≡ held c q
    unfolding finally_released
    released object body c q h p =
        let r = (body c).0 in
        let d = (body c).1 in
        ap (λ e. held e q + one object q) (after_body_state r (io.release object d))
        ∙ law.releases object d q (omega (arith, h c object))
        ∙ h c q

    parent_given_back :
        (before : C) (x : Result (Option ℕ) × C) (q : ℕ)
        → Handed before x
        → held (resume_with (with_parent io) x).1 q ≡ held before q
    parent_given_back before (raise e, c) q h = h q
    parent_given_back before (ok none, c) q h = h q
    parent_given_back before (ok (some parent), c) q h = omega (
      arith,
      h q,
      h parent,
      one_self parent,
      released parent (usb_of io parent) c q (usb_of-KeepsAll held io law.reading parent)
          (omega (arith, h parent, one_self parent)),
    )

    resolve_usb-KeepsAll : (service : ℕ) → KeepsAll held (resolve_usb io service)
    unfolding resolve_usb ◌>>=◌
    resolve_usb-KeepsAll service c q =
        parent_given_back c (io.find_usb_parent service c) q (law.climbs service c)

    with_port-Returned :
        (before : C) (p : Option PortInfo) (o : Option (Result (List PortInfo) × C))
        → Returned before o
        → Returned before (with_port io p o)
    with_port-Returned before none o h = h
    with_port-Returned before (some p) none h = tt
    with_port-Returned before (some p) (some (raise e, c)) h = h
    with_port-Returned before (some p) (some (ok ports, c)) h = h

    since :
        {A : Type 0} (c d : C) (o : Option (Result A × C))
        → ((q : ℕ) → held d q ≡ held c q)
        → Returned d o
        → Returned c o
    since c d none e h = tt
    since c d (some (r, x)) e h = λ q. h q ∙ e q

    go_on-Returned :
        (before : C) (next : Option PortInfo → C → Option (Result (List PortInfo) × C))
        (y : Result (Option PortInfo) × C)
        → ((q : ℕ) → held y.1 q ≡ held before q)
        → ((p : Option PortInfo) → Returned y.1 (next p y.1))
        → Returned before (go_on io next y)
    go_on-Returned before next (raise e, c) k n = k
    go_on-Returned before next (ok p, c) k n = since before c (next p c) k (n p)

    or_next-Returned :
        (before : C) (next : C → Option (Result (Option PortInfo) × C))
        (y : Result (Option (Option PortInfo)) × C)
        → ((q : ℕ) → held y.1 q ≡ held before q)
        → Returned y.1 (next y.1)
        → Returned before (or_next io next y)
    or_next-Returned before next (raise e, c) k n = k
    or_next-Returned before next (ok none, c) k n = since before c (next c) k n
    or_next-Returned before next (ok (some p), c) k n = k

    at_service-Returned :
        {A : Type 0} (before : C) (next : ℕ → C → Option (Result A × C)) (x : Result (Option ℕ) × C)
        (done : C → Option (Result A × C))
        → Handed before x
        → ((c : C) → Returned c (done c))
        → ((service : ℕ) (c : C)
            → ((q : ℕ) → held c q ≡ held before q + one service q)
            → Returned before (next service c))
        → Returned before (at_service io next x done)
    at_service-Returned before next (raise e, c) done h d n = h
    at_service-Returned before next (ok none, c) done h d n = since before c (done c) h (d c)
    at_service-Returned before next (ok (some service), c) done h d n = n service c h

    -- The state after a body under the reference of a service is that before the service.
    spent :
        {A : Type 0} (before : C) (service : ℕ) (body : Call C A) (c : C)
        → KeepsAll held body
        → ((q : ℕ) → held c q ≡ held before q + one service q)
        → (q : ℕ) → held (finally_released io service body c).1 q ≡ held before q
    spent before service body c k h q =
        omega (arith, h q, released service body c q k (omega (arith, h service, one_self service)))

    collect-Returned : (rounds : ℕ) (c : C) → Returned c (collect io rounds c)
    unfolding collect
    collect-Returned zero c = tt
    collect-Returned (suc rounds) c =
        at_service-Returned c _ (io.next_service c) _ (law.advances c) (λ d q. refl)
          (λ service d h.
            go_on-Returned c _ (finally_released io service (resolve_service io service) d)
              (spent c service (resolve_service io service) d
                (resolve_service-KeepsAll held io law.reading resolve_usb-KeepsAll service) h)
              (λ p. with_port-Returned _ p _ (collect-Returned rounds _)))

    in_order-Returned :
        (c : C) (o : Option (Result (List PortInfo) × C))
        → Returned c o
        → Returned c (in_order io o)
    in_order-Returned c none h = tt
    in_order-Returned c (some (raise e, d)) h = h
    in_order-Returned c (some (ok ports, d)) h = h

    pub resolve-Returned :
        (rounds : ℕ) (path : Text) (c : C) → Returned c (resolve_port_info io rounds path c)
    unfolding resolve_port_info
    resolve-Returned zero path c = tt
    resolve-Returned (suc rounds) path c =
        at_service-Returned c _ (io.next_service c) _ (law.advances c) (λ d q. refl)
          (λ service d h.
            or_next-Returned c _ (finally_released io service (match_service io path service) d)
              (spent c service (match_service io path service) d
                (match_service-KeepsAll held io law.reading resolve_usb-KeepsAll path service) h)
              (resolve-Returned rounds path _))

    pub enumerate-Returned : (rounds : ℕ) (c : C) → Returned c (enumerate_ports io rounds c)
    unfolding enumerate_ports
    enumerate-Returned rounds c =
        in_order-Returned c (collect io rounds c) (collect-Returned rounds c)
