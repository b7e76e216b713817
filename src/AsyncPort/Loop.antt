-- ===== src/AsyncPort/Loop.antt =====
-- The event loop of an asynchronous port: calls and ends of awaits, in any order.
use anyserial.Base.{ℕ, zero, suc, Option, none, some, List, [], ◌∷◌}
use anyserial.Errors.{Result}
use anyserial.Config.{SerialConfig}
use anyserial.Backend.Asynchronous.{AsyncBackend}
use anyserial.Stream.Port.{Wake, Reply}
use anyserial.Stream.Loop.{Op, Event, call, wake}
use anyserial.AsyncPort.{
  AsyncPort, Pending, Progress, finished, parked, new_async_port, start_receive, start_receive_into,
  start_receive_available, start_send, start_drain, start_send_eof, start_send_break,
  turn_to_configure, turn_to_close, waiting, unless_closed, resume,
}

-- The port, its parked coroutines and the results so far, latest first.
pub record AsyncWorld (B : Type 0) : Type 0 where
  pub port : AsyncPort B
  pub tasks : List Pending
  pub results : List (Result Reply)

-- The task of that number, and the others.
unfoldable pub pull : ℕ → List Pending → Option (Pending × List Pending)
pull n [] = none
pull zero (t ∷ ts) = some (t, ts)
pull (suc n) (t ∷ ts) = elim (pull n ts) [ none ↦ none | some (u, us) ↦ some (u, t ∷ us) ]

module _ {B : Type 0} where
  unfoldable pub settle : List Pending → List (Result Reply) → AsyncPort B × Progress → AsyncWorld B
  settle ts rs (p, parked t) = record { port = p; tasks = t ∷ ts; results = rs }
  settle ts rs (p, finished r) = record { port = p; tasks = ts; results = r ∷ rs }

  module _ (be : AsyncBackend B) where
    -- A call, up to its first await or its end.
    unfoldable pub start : Op → AsyncPort B → AsyncPort B × Progress
    start (Op.receive n) = start_receive be n
    start (Op.receive_into buffer) = start_receive_into be buffer
    start (Op.receive_available limit) = start_receive_available be limit
    start (Op.send xs) = start_send be xs
    start Op.send_eof = start_send_eof be
    start Op.drain = start_drain be
    start Op.drain_exact = start_drain be
    start Op.close = turn_to_close be
    start (Op.send_break d) = start_send_break be d
    start (Op.configure c) = turn_to_configure be c
    start Op.reset_input_buffer = unless_closed be Pending.resetting_input
    start Op.reset_output_buffer = unless_closed be Pending.resetting_output
    start Op.modem_lines = unless_closed be Pending.reading_lines
    start Op.input_waiting = waiting be be.input_waiting
    start Op.output_waiting = waiting be be.output_waiting
    start (Op.set_control_lines rts dtr) = unless_closed be (Pending.setting_lines rts dtr)

    unfoldable pub woken : AsyncWorld B → Wake → Option (Pending × List Pending) → AsyncWorld B
    unfolding settle
    woken w k none = w
    woken w k (some (t, ts)) = settle ts w.results (resume be t k w.port)

    unfoldable pub step : AsyncWorld B → Event → AsyncWorld B
    unfolding woken
    step w (call op) = settle w.tasks w.results (start op w.port)
    step w (wake n k) = woken w k (pull n w.tasks)

    unfoldable pub run : AsyncWorld B → List Event → AsyncWorld B
    run w [] = w
    run w (e ∷ es) = run (step w e) es

    unfoldable pub fresh : B → SerialConfig → AsyncWorld B
    unfolding new_async_port
    fresh b c = record { port = new_async_port be b c; tasks = []; results = [] }
