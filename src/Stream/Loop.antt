-- ===== src/Stream/Loop.antt =====
-- The event loop: calls on the port and wake-ups of the parked coroutines, in any order.
pub mod Closing
pub mod Exclusion
use anyserial.Base.{ℕ, zero, suc, Bool, Option, none, some, List, [], ◌∷◌, ◌++◌, ℤ}
use anyserial.Errors.{Result, raise}
use anyserial.Config.{SerialConfig, Seconds}
use anyserial.Backend.Protocol.{SyncBackend}
use anyserial.Stream.Port.{
  Port, Task, Wake, ready, threw, Reply, Outcome, finished, parked, new_port,
}
use anyserial.Stream.Receive.{
  start_receive, resume_receive, start_receive_into, resume_receive_into, start_receive_available,
  resume_available, resume_available_again,
}
use anyserial.Stream.Send.{
  start_send, resume_send, start_drain, resume_drain, start_send_eof, start_drain_exact,
  resume_drain_exact, start_send_break, resume_send_break,
}
use anyserial.Stream.Control

-- The methods of a port.
pub data Op : Type 0 where
  receive : ℤ → Op
  receive_into : List ℕ → Op
  receive_available : Option ℤ → Op
  send : List ℕ → Op
  send_eof drain drain_exact close : Op
  send_break : Seconds → Op
  configure : SerialConfig → Op
  reset_input_buffer reset_output_buffer modem_lines input_waiting output_waiting : Op
  set_control_lines : Option Bool → Option Bool → Op

module _ {B : Type 0} (be : SyncBackend B) where
  -- A call, up to its first await or its end.
  unfoldable pub start : Op → Port B → Port B × Outcome
  start (Op.receive n) = start_receive be n
  start (Op.receive_into buffer) = start_receive_into be buffer
  start (Op.receive_available limit) = start_receive_available be limit
  start (Op.send xs) = start_send be xs
  start Op.send_eof = start_send_eof be
  start Op.drain = start_drain be
  start Op.drain_exact = start_drain_exact be
  start Op.close = Control.aclose be
  start (Op.send_break d) = start_send_break be d
  start (Op.configure c) = Control.configure be c
  start Op.reset_input_buffer = Control.reset_input_buffer be
  start Op.reset_output_buffer = Control.reset_output_buffer be
  start Op.modem_lines = Control.modem_lines be
  start Op.input_waiting = Control.waiting be be.input_waiting
  start Op.output_waiting = Control.waiting be be.output_waiting
  start (Op.set_control_lines rts dtr) = Control.set_control_lines be rts dtr

  -- What follows the acquiring of a lock; a cancellation of it is raised and does nothing else.
  abbrev pub with_lock : (Port B → Port B × Outcome) → Wake → Port B → Port B × Outcome
  with_lock body ready p = body p
  with_lock body (threw e) p = (p, finished (raise e))

  -- A parked coroutine, up to its next await or its end.
  unfoldable pub resume : Task → Wake → Port B → Port B × Outcome
  resume (Task.receiving n fd) = resume_receive be n fd
  resume (Task.receiving_into buffer fd) = resume_receive_into be buffer fd
  resume (Task.available limit fd) = resume_available be limit fd
  resume (Task.available_again size fd) = resume_available_again be size fd
  resume (Task.sending rest fd) = resume_send be rest fd
  resume (Task.draining bps above below) = resume_drain be bps
  resume Task.draining_exact = resume_drain_exact be
  resume (Task.breaking d) = resume_send_break be
  resume Task.close_turn = with_lock (Control.enter_close be)
  resume (Task.configure_turn c) = with_lock (Control.enter_configure be c)

-- What the scheduler does next.
pub data Event : Type 0 where
  call : Op → Event
  wake : ℕ → Wake → Event

-- The port, its parked coroutines and the results so far, latest first.
pub record World (B : Type 0) : Type 0 where
  pub port : Port B
  pub tasks : List Task
  pub results : List (Result Reply)

-- The task of that number, and the others.
unfoldable pub pull : ℕ → List Task → Option (Task × List Task)
pull n [] = none
pull zero (t ∷ ts) = some (t, ts)
pull (suc n) (t ∷ ts) = elim (pull n ts) [ none ↦ none | some (u, us) ↦ some (u, t ∷ us) ]

module _ {B : Type 0} where
  -- A coroutine that parks joins the others; one that ends leaves its result.
  unfoldable pub settle : List Task → List (Result Reply) → Port B × Outcome → World B
  settle ts rs (p, parked t) = record { port = p; tasks = t ∷ ts; results = rs }
  settle ts rs (p, finished r) = record { port = p; tasks = ts; results = r ∷ rs }

  module _ (be : SyncBackend B) where
    unfoldable pub woken : World B → Wake → Option (Task × List Task) → World B
    unfolding settle
    woken w k none = w
    woken w k (some (t, ts)) = settle ts w.results (resume be t k w.port)

    unfoldable pub step : World B → Event → World B
    unfolding woken
    step w (call op) = settle w.tasks w.results (start be op w.port)
    step w (wake n k) = woken w k (pull n w.tasks)

    unfoldable pub run : World B → List Event → World B
    run w [] = w
    run w (e ∷ es) = run (step w e) es

    unfoldable pub fresh : B → SerialConfig → World B
    unfolding new_port
    fresh b c = record { port = new_port be b c; tasks = []; results = [] }
