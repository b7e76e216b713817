-- ===== src/Stream/Loop/Closing.antt =====
-- After `aclose`: what the other methods and the coroutines that were parked do.
use anyserial.Base.{
  ℕ, ◌≡◌, refl, Bool, true, false, Option, none, some, List, [], ◌∷◌, arith, pos, negsuc, ap, ◌∙◌,
}
use anyserial.Errors.{Exn, Result, ok, raise}
use anyserial.Backend.Protocol.{SyncBackend}
use anyserial.Stream.Port.{Port, Task, Wake, ready, threw, Reply, Outcome, finished, parked}
use anyserial.Stream.Receive.{
  start_receive, resume_receive, start_receive_into, resume_receive_into, start_receive_available,
  resume_available, resume_available_again,
}
use anyserial.Stream.Send.{
  start_send, resume_send, start_drain, resume_drain, start_send_eof, start_drain_exact,
  start_send_break,
}
use anyserial.Stream.Control
use anyserial.Stream.Loop.{
  Op, Event, call, wake, World, start, resume, pull, settle, woken, step, run,
}
use anyserial.Stream.Loop.Exclusion.{count, of_outcome, Accounts, pull-Accounts}

-- The coroutines that still call the backend when they are resumed: the worker thread's drain,
-- and the release of a BREAK.
abbrev pub lingers : Task → ℕ
lingers Task.draining_exact = 1
lingers (Task.breaking d) = 1
lingers _ = 0

-- The coroutine has ended; it has ended with an exception.
abbrev pub ended : Outcome → Bool
ended (finished r) = true
ended (parked t) = false

abbrev pub failed : Outcome → Bool
failed (finished (raise e)) = true
failed (finished (ok r)) = false
failed (parked t) = false

-- The turn at the lock of `aclose`, which finds a closed port and returns; any other end of an
-- await on a closed port raises.
abbrev pub ends_closed : Task → Wake → Outcome → Bool
ends_closed Task.close_turn ready o = ended o
ends_closed _ _ o = failed o

module _ {B : Type 0} (be : SyncBackend B) where
  -- On a closed port a method ends at once or waits for its turn at a lock, and leaves the port as it
  -- is.
  start_closed :
      (op : Op) (p : Port B)
      → p.closed ≡ true
      → ((start be op p).0 ≡ p) × (of_outcome lingers (start be op p).1 ≡ 0)
  unfolding start start_receive start_receive_into start_receive_available start_send start_drain
      start_send_eof start_drain_exact start_send_break Control.aclose Control.configure
      Control.control Control.reset_input_buffer Control.reset_output_buffer Control.modem_lines
      Control.set_control_lines Control.waiting
  start_closed (Op.receive (pos n)) p h = ground arith
  start_closed (Op.receive (negsuc n)) p h = ground arith
  start_closed (Op.send []) p h = ground arith
  start_closed (Op.send (x ∷ xs)) p h = ground arith
  start_closed _ p h = ground arith

  -- However a coroutine other than a `drain_exact` or a `send_break` is woken after the port was
  -- closed: it ends, with an exception unless it is an `aclose` whose turn at the lock came, the port
  -- stays closed and the backend is as it was.
  pub resume_closed :
      (t : Task) (k : Wake) (p : Port B)
      → p.closed ≡ true
      → lingers t ≡ 0
      → (ends_closed t k (resume be t k p).1 ≡ true)
        × ((resume be t k p).0.closed ≡ true)
        × ((resume be t k p).0.backend ≡ p.backend)
  unfolding resume resume_receive resume_receive_into resume_available resume_available_again
      resume_send resume_drain Control.enter_close Control.enter_configure
  resume_closed Task.draining_exact k p h l = absurd (omega arith)
  resume_closed (Task.breaking d) k p h l = absurd (omega arith)
  resume_closed _ ready p h l = ground arith
  resume_closed _ (threw e) p h l = (refl, h, refl)

  -- A world in which the port is closed with that backend, and no coroutine lingers.
  record IsQuiet (b : B) (w : World B) : Type 0 where
    pub closed : w.port.closed ≡ true
    pub untouched : w.port.backend ≡ b
    pub none_lingers : count lingers w.tasks ≡ 0

  settle-IsQuiet :
      (b : B) (ts : List Task) (rs : List (Result Reply)) (q : Port B) (o : Outcome)
      → of_outcome lingers o ≡ 0
      → q.closed ≡ true
      → q.backend ≡ b
      → count lingers ts ≡ 0
      → IsQuiet b (settle ts rs (q, o))
  unfolding settle
  settle-IsQuiet b ts rs q (parked t) e c u l = record {
    closed = c;
    untouched = u;
    none_lingers = omega (arith, e, l);
  }
  settle-IsQuiet b ts rs q (finished r) e c u l = record {
    closed = c;
    untouched = u;
    none_lingers = l;
  }

  -- An end is no coroutine that lingers.
  failed-none : (o : Outcome) → failed o ≡ true → of_outcome lingers o ≡ 0
  failed-none (finished r) h = refl
  failed-none (parked t) h = cc

  ended-none : (o : Outcome) → ended o ≡ true → of_outcome lingers o ≡ 0
  ended-none (finished r) h = refl
  ended-none (parked t) h = cc

  ends-none :
      (t : Task) (k : Wake) (o : Outcome) → ends_closed t k o ≡ true → of_outcome lingers o ≡ 0
  ends-none Task.close_turn ready o h = ended-none o h
  ends-none Task.close_turn (threw e) o h = failed-none o h
  ends-none _ k o h = failed-none o h

  woken-IsQuiet :
      (b : B) (w : World B) (k : Wake) (o : Option (Task × List Task))
      → IsQuiet b w
      → Accounts lingers (count lingers w.tasks) o
      → IsQuiet b (woken be w k o)
  unfolding woken
  woken-IsQuiet b w k none h a = h
  woken-IsQuiet b w k (some (t, us)) h a =
      let (f, c, u) = resume_closed t k w.port h.closed (omega arith) in
      let (q, o) = resume be t k w.port in
      settle-IsQuiet b us w.results q o (ends-none t k o f) c (u ∙ h.untouched) (omega arith)

  step-IsQuiet : (b : B) (w : World B) (e : Event) → IsQuiet b w → IsQuiet b (step be w e)
  unfolding step
  step-IsQuiet b w (call op) h =
      let (same, e) = start_closed op w.port h.closed in
      let (q, o) = start be op w.port in
      settle-IsQuiet b w.tasks w.results q o e (ap (λ (p : Port B). p.closed) same ∙ h.closed)
        (ap (λ (p : Port B). p.backend) same ∙ h.untouched) h.none_lingers
  step-IsQuiet b w (wake n k) h =
      woken-IsQuiet b w k (pull n w.tasks) h (pull-Accounts lingers n w.tasks)

  run-IsQuiet : (b : B) (w : World B) (es : List Event) → IsQuiet b w → IsQuiet b (run be w es)
  unfolding run
  run-IsQuiet b w [] h = h
  run-IsQuiet b w (e ∷ es) h = run-IsQuiet b (step be w e) es (step-IsQuiet b w e h)

  closing :
      (w : World B) (n : ℕ) (ts : List Task)
      → pull n w.tasks ≡ some (Task.close_turn, ts)
      → w.port.closed ≡ false
      → count lingers ts ≡ 0
      → IsQuiet (be.close w.port.backend).1 (step be w (wake n ready))
  unfolding step woken resume settle Control.enter_close
  closing w n ts e h l = rw (e, h) (record { closed = refl; untouched = refl; none_lingers = l })

  cancelled :
      (w : World B) (n : ℕ) (ts : List Task) (e : Exn)
      → pull n w.tasks ≡ some (Task.close_turn, ts)
      → (step be w (wake n (threw e))).port ≡ w.port
  unfolding step woken resume settle
  cancelled w n ts e h = rw h refl

  -- An `aclose` waits for its turn at a lock. Where that wait is cancelled, the port is as it was. Where
  -- the turn comes on an open port, while no `drain_exact` and no `send_break` is under way, the port
  -- never changes its backend again: whatever is called or resumed later, also another `aclose`, the
  -- port is closed and the backend stays as its one `close` left it.
  pub close_is_final :
      (w : World B) (n : ℕ) (ts : List Task) (es : List Event)
      → pull n w.tasks ≡ some (Task.close_turn, ts)
      → w.port.closed ≡ false
      → count lingers ts ≡ 0
      → ((e : Exn) → (step be w (wake n (threw e))).port ≡ w.port)
        × (let after = run be (step be w (wake n ready)) es in
            (after.port.closed ≡ true) × (after.port.backend ≡ (be.close w.port.backend).1))
  close_is_final w n ts es t h l =
      let quiet =
        run-IsQuiet (be.close w.port.backend).1 (step be w (wake n ready)) es
          (closing w n ts t h l) in
      (λ e. cancelled w n ts e t, (quiet.closed, quiet.untouched))
