-- ===== src/Stream/Loop/Exclusion.antt =====
-- The guards: at most one coroutine reads, and at most one of those that write, drain or break.
use anyserial.Base.{
  ℕ, zero, suc, ◌+◌, ◌≤◌, ◌≡◌, refl, Bool, true, false, Option, none, some, List, [], ◌∷◌, arith,
  pos, negsuc,
}
use anyserial.Errors.{Result}
use anyserial.Config.{SerialConfig}
use anyserial.Backend.Protocol.{SyncBackend}
use anyserial.Stream.Port.{Port, Task, Wake, ready, threw, Reply, Outcome, finished, parked}
use anyserial.Stream.Receive.{
  start_receive, resume_receive, start_receive_into, resume_receive_into, start_receive_available,
  resume_available, resume_available_again,
}
use anyserial.Stream.Send.{
  start_send, resume_send, start_drain, resume_drain, start_send_eof, start_drain_exact,
  resume_drain_exact, start_send_break, resume_send_break, drain_round,
}
use anyserial.Stream.Control
use anyserial.Stream.Loop.{
  Op, Event, call, wake, World, start, resume, pull, settle, woken, step, run, fresh,
}

abbrev pub receives : Task → ℕ
receives (Task.receiving n fd) = 1
receives (Task.receiving_into buffer fd) = 1
receives (Task.available limit fd) = 1
receives (Task.available_again size fd) = 1
receives _ = 0

abbrev pub sends : Task → ℕ
sends (Task.sending rest fd) = 1
sends (Task.draining bps above below) = 1
sends Task.draining_exact = 1
sends (Task.breaking d) = 1
sends _ = 0

abbrev pub count : (Task → ℕ) → List Task → ℕ
count f [] = 0
count f (t ∷ ts) = f t + count f ts

abbrev pub held : Bool → ℕ
held true = 1
held false = 0

abbrev pub of_outcome : (Task → ℕ) → Outcome → ℕ
of_outcome f (parked t) = f t
of_outcome f (finished r) = 0

module _ {B : Type 0} (be : SyncBackend B) where
  -- A call takes a guard exactly if it parks under it.
  abbrev Balanced : Port B → Port B × Outcome → Type 0
  Balanced p (q, o) =
      (held q.receive_guard ≡ held p.receive_guard + of_outcome receives o)
      × (held q.send_guard ≡ held p.send_guard + of_outcome sends o)

  drain_round-Balanced :
      (n : ℕ) (p : Port B)
      → p.send_guard ≡ false
      → Balanced p (drain_round be n (record p { send_guard = true }))
  unfolding drain_round
  drain_round-Balanced n p h = ground arith

  start-Balanced : (op : Op) (p : Port B) → Balanced p (start be op p)
  unfolding start start_receive start_receive_into start_receive_available start_send start_drain
      start_send_eof start_drain_exact start_send_break Control.aclose Control.configure
      Control.control Control.reset_input_buffer Control.reset_output_buffer Control.modem_lines
      Control.set_control_lines Control.waiting
  start-Balanced (Op.receive (pos n)) p = ground arith
  start-Balanced (Op.receive (negsuc n)) p = ground arith
  start-Balanced (Op.send []) p = ground arith
  start-Balanced (Op.send (x ∷ xs)) p = ground arith
  start-Balanced _ p = ground arith

  -- A resumption gives the guard up exactly if it ends.
  abbrev Released : Task → Port B → Port B × Outcome → Type 0
  Released t p (q, o) =
      (held q.receive_guard + receives t ≡ held p.receive_guard + of_outcome receives o)
      × (held q.send_guard + sends t ≡ held p.send_guard + of_outcome sends o)

  resume-Released :
      (t : Task) (k : Wake) (p : Port B)
      → receives t ≤ held p.receive_guard
      → sends t ≤ held p.send_guard
      → Released t p (resume be t k p)
  unfolding resume resume_receive resume_receive_into resume_available resume_available_again
      resume_send resume_drain resume_drain_exact resume_send_break Control.enter_close
      Control.enter_configure Control.after_configure
  resume-Released (Task.receiving n fd) ready p a b = ground arith
  resume-Released (Task.receiving n fd) (threw e) p a b = ground arith
  resume-Released _ ready p a b = ground arith
  resume-Released _ (threw e) p a b = ground arith

-- What `pull` takes out and what it leaves, counted.
abbrev pub Accounts : (Task → ℕ) → ℕ → Option (Task × List Task) → Type 0
Accounts f total none = Unit
Accounts f total (some (t, us)) = total ≡ f t + count f us

pull_under :
    (f : Task → ℕ) (x : Task) (total : ℕ) (o : Option (Task × List Task))
    → Accounts f total o
    → Accounts f (f x + total) (elim o [ none ↦ none | some (u, us) ↦ some (u, x ∷ us) ])
pull_under f x total none h = tt
pull_under f x total (some (u, us)) h = omega arith

pub pull-Accounts : (f : Task → ℕ) (n : ℕ) (ts : List Task) → Accounts f (count f ts) (pull n ts)
unfolding pull
pull-Accounts f zero [] = tt
pull-Accounts f (suc n) [] = tt
pull-Accounts f zero (x ∷ ts) = refl
pull-Accounts f (suc n) (x ∷ ts) = pull_under f x (count f ts) (pull n ts) (pull-Accounts f n ts)

-- The guards count the parked coroutines: the receive guard is held exactly while one of them is
-- in a `receive`, and the send guard exactly while one is in a `send`, `drain` or `send_break`.
pub record IsExclusive {B : Type 0} (w : World B) : Type 0 where
  pub one_receiver : count receives w.tasks ≡ held w.port.receive_guard
  pub one_sender : count sends w.tasks ≡ held w.port.send_guard

settle-IsExclusive :
    {B : Type 0} (ts : List Task) (rs : List (Result Reply)) (q : Port B) (o : Outcome)
    → count receives ts + of_outcome receives o ≡ held q.receive_guard
    → count sends ts + of_outcome sends o ≡ held q.send_guard
    → IsExclusive (settle ts rs (q, o))
unfolding settle
settle-IsExclusive ts rs q (parked t) a b = record {
  one_receiver = omega arith;
  one_sender = omega arith;
}
settle-IsExclusive ts rs q (finished r) a b = record {
  one_receiver = omega arith;
  one_sender = omega arith;
}

module _ {B : Type 0} (be : SyncBackend B) where
  woken-IsExclusive :
      (w : World B) (k : Wake) (o : Option (Task × List Task))
      → IsExclusive w
      → Accounts receives (count receives w.tasks) o
      → Accounts sends (count sends w.tasks) o
      → IsExclusive (woken be w k o)
  unfolding woken
  woken-IsExclusive w k none h a b = h
  woken-IsExclusive w k (some (t, us)) h a b =
      let (out, out') = resume-Released be t k w.port (omega arith) (omega arith) in
      let (q, o) = resume be t k w.port in
      settle-IsExclusive us w.results q o (omega arith) (omega arith)

  step-IsExclusive : (w : World B) (e : Event) → IsExclusive w → IsExclusive (step be w e)
  unfolding step
  step-IsExclusive w (call op) h =
      let (r, s) = start-Balanced be op w.port in
      let (q, o) = start be op w.port in
      settle-IsExclusive w.tasks w.results q o (omega arith) (omega arith)
  step-IsExclusive w (wake n k) h =
      woken-IsExclusive w k (pull n w.tasks) h (pull-Accounts receives n w.tasks)
        (pull-Accounts sends n w.tasks)

  run_keeps : (w : World B) (es : List Event) → IsExclusive w → IsExclusive (run be w es)
  unfolding run
  run_keeps w [] h = h
  run_keeps w (e ∷ es) h = run_keeps (step be w e) es (step-IsExclusive w e h)

  -- Whatever the backend does, and in whatever order methods are called and coroutines resumed,
  -- from a fresh port on at most one coroutine at a time is in a read, and at most one in a
  -- write, a drain or a break: each guard is held exactly while such a coroutine is parked.
  pub run-IsExclusive :
      (b : B) (c : SerialConfig) (es : List Event) → IsExclusive (run be (fresh be b c) es)
  unfolding fresh
  run-IsExclusive b c es =
      run_keeps (fresh be b c) es (record { one_receiver = refl; one_sender = refl })
