-- ===== src/AsyncPort/Closing.antt =====
-- After `aclose` of an asynchronous port.
use anyserial.Base.{
  ℕ, ◌+◌, ◌≤◌, ◌<◌, ◌≡◌, ◌∙◌, ◌⊎◌, inl, inr, refl, ap, true, Option, none, some, List, [], ◌∷◌,
  arith, pos, negsuc,
}
use anyserial.Errors.{Result}
use anyserial.Backend.Asynchronous.{AsyncBackend}
use anyserial.Stream.Port.{Wake, ready, threw, Reply}
use anyserial.Stream.Loop.{Op, Event, call, wake}
use anyserial.AsyncPort.{
  AsyncPort, Pending, Progress, finished, parked, start_receive, start_receive_into,
  start_receive_available, start_send, start_drain, start_send_eof, start_send_break,
  turn_to_configure, enter_configure, turn_to_close, enter_close, waiting, resume,
}
use anyserial.AsyncPort.Loop.{AsyncWorld, start, pull, settle, woken, step, run}
use anyserial.AsyncPort.Exclusion.{count, of_progress, Accounts, pull-Accounts}

-- The coroutine awaits the backend, and not its turn at a lock.
abbrev pub asks : Pending → ℕ
asks (Pending.configure_turn c) = 0
asks Pending.close_turn = 0
asks _ = 1

module _ {B : Type 0} (be : AsyncBackend B) where
  -- A closed port whose coroutine asks nothing of the backend from here on.
  abbrev Silent : AsyncPort B × Progress → Type 0
  Silent (q, o) = (q.closed ≡ true) × (of_progress asks o ≡ 0)

  start-Silent :
      (op : Op) (p : AsyncPort B)
      → p.closed ≡ true
      → Silent (start be op p) × ((start be op p).0.backend ≡ p.backend)
  unfolding start start_receive start_receive_into start_receive_available start_send start_drain
      start_send_eof start_send_break turn_to_configure enter_configure turn_to_close enter_close
      waiting
  start-Silent (Op.receive (pos n)) p h = ground arith
  start-Silent (Op.receive (negsuc n)) p h = ground arith
  start-Silent (Op.send []) p h = ground arith
  start-Silent (Op.send (x ∷ xs)) p h = ground arith
  start-Silent (Op.receive_into []) p h = ground arith
  start-Silent (Op.receive_into (x ∷ xs)) p h = ground arith
  start-Silent _ p h = ground arith

  resume-Silent :
      (t : Pending) (k : Wake) (p : AsyncPort B) → p.closed ≡ true → Silent (resume be t k p)
  unfolding resume turn_to_configure enter_configure turn_to_close enter_close
  resume-Silent _ ready p h = ground arith
  resume-Silent _ (threw e) p h = ground arith

  -- A turn at a lock leaves the backend as it is.
  resume_unasked :
      (t : Pending) (k : Wake) (p : AsyncPort B)
      → p.closed ≡ true
      → (0 < asks t) ⊎ ((resume be t k p).0.backend ≡ p.backend)
  unfolding resume turn_to_configure enter_configure turn_to_close enter_close
  resume_unasked (Pending.configure_turn c) ready p h = inr (ground arith)
  resume_unasked (Pending.configure_turn c) (threw e) p h = inr refl
  resume_unasked Pending.close_turn ready p h = inr (ground arith)
  resume_unasked Pending.close_turn (threw e) p h = inr refl
  resume_unasked _ k p h = inl (omega arith)

  -- An event that changes the backend is the end of a request that was under way.
  abbrev pub IsUnasked : AsyncWorld B → AsyncWorld B → Type 0
  IsUnasked w after =
      (count asks after.tasks < count asks w.tasks) ⊎ (after.port.backend ≡ w.port.backend)

  settled_port :
      (ts : List Pending) (rs : List (Result Reply)) (q : AsyncPort B) (o : Progress)
      → (settle ts rs (q, o)).port ≡ q
  unfolding settle
  settled_port ts rs q (parked t) = refl
  settled_port ts rs q (finished r) = refl

  settled_count :
      (ts : List Pending) (rs : List (Result Reply)) (q : AsyncPort B) (o : Progress)
      → of_progress asks o ≡ 0
      → count asks (settle ts rs (q, o)).tasks ≡ count asks ts
  unfolding settle
  settled_count ts rs q (parked t) h = omega (arith, h)
  settled_count ts rs q (finished r) h = refl

  woken-IsUnasked :
      (w : AsyncWorld B) (k : Wake) (o : Option (Pending × List Pending))
      → w.port.closed ≡ true
      → Accounts asks (count asks w.tasks) o
      → IsUnasked w (woken be w k o)
  unfolding woken
  woken-IsUnasked w k none h a = inr refl
  woken-IsUnasked w k (some (t, us)) h a =
      let (c, r) = resume-Silent t k w.port h in
      let (q, o) = resume be t k w.port in
      elim (resume_unasked t k w.port h) [
        | inl asked ↦ inl (omega (arith, a, asked, settled_count us w.results q o r))
        | inr same ↦
            inr (ap (λ (p : AsyncPort B). p.backend) (settled_port us w.results q o) ∙ same)
      ]

  step-IsUnasked : (w : AsyncWorld B) (e : Event) → w.port.closed ≡ true → IsUnasked w (step be w e)
  unfolding step
  step-IsUnasked w (call op) h =
      let (q, o) = start be op w.port in
      inr (
        ap (λ (p : AsyncPort B). p.backend) (settled_port w.tasks w.results q o)
        ∙ (start-Silent op w.port h).1)
  step-IsUnasked w (wake i k) h =
      woken-IsUnasked w k (pull i w.tasks) h (pull-Accounts asks i w.tasks)

  -- Closed, with at most so many requests under way.
  record Closed (n : ℕ) (w : AsyncWorld B) : Type 0 where
    pub closed : w.port.closed ≡ true
    pub requests : count asks w.tasks ≤ n

  settle-Closed :
      (n : ℕ) (ts : List Pending) (rs : List (Result Reply)) (q : AsyncPort B) (o : Progress)
      → q.closed ≡ true
      → count asks ts + of_progress asks o ≤ n
      → Closed n (settle ts rs (q, o))
  unfolding settle
  settle-Closed n ts rs q (parked t) h l = record { closed = h; requests = omega arith }
  settle-Closed n ts rs q (finished r) h l = record { closed = h; requests = omega arith }

  woken-Closed :
      (n : ℕ) (w : AsyncWorld B) (k : Wake) (o : Option (Pending × List Pending))
      → Closed n w
      → Accounts asks (count asks w.tasks) o
      → Closed n (woken be w k o)
  unfolding woken
  woken-Closed n w k none h a = h
  woken-Closed n w k (some (t, us)) h a =
      let (c, r) = resume-Silent t k w.port h.closed in
      let (q, o) = resume be t k w.port in
      settle-Closed n us w.results q o c (omega (arith, h.requests))

  step-Closed : (n : ℕ) (w : AsyncWorld B) (e : Event) → Closed n w → Closed n (step be w e)
  unfolding step
  step-Closed n w (call op) h =
      let (c, r) = (start-Silent op w.port h.closed).0 in
      let (q, o) = start be op w.port in
      settle-Closed n w.tasks w.results q o c (omega (arith, h.requests))
  step-Closed n w (wake i k) h =
      woken-Closed n w k (pull i w.tasks) h (pull-Accounts asks i w.tasks)

  run-Closed : (n : ℕ) (w : AsyncWorld B) (es : List Event) → Closed n w → Closed n (run be w es)
  unfolding run
  run-Closed n w [] h = h
  run-Closed n w (e ∷ es) h = run-Closed n (step be w e) es (step-Closed n w e h)

  -- A port over an asynchronous backend that is closed stays so, whatever is called and whichever
  -- awaits end; the requests to the backend that are under way only get fewer, and whatever happens
  -- next leaves the backend as it is, unless it is the end of one of them.
  pub closed_asks_nothing :
      (w : AsyncWorld B) (es : List Event)
      → w.port.closed ≡ true
      → let after = run be w es in
        (after.port.closed ≡ true)
        × (count asks after.tasks ≤ count asks w.tasks)
        × ((e : Event) → IsUnasked after (step be after e))
  closed_asks_nothing w es h =
      let after =
        run-Closed (count asks w.tasks) w es (record { closed = h; requests = omega arith }) in
      (after.closed, after.requests, λ e. step-IsUnasked (run be w es) e after.closed)
