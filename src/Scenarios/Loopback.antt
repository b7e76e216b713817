-- ===== src/Scenarios/Loopback.antt =====
-- An asynchronous backend that gives back what it is sent, and a port on it.
use anyserial.Base.{ℕ, ◌≤◌, ◌≡◌, refl, true, false, List, [], ◌∷◌, ◌++◌, pos, take, drop, length}
use anyserial.Errors.{Exn, ok}
use anyserial.Config.{default_config}
use anyserial.Backend.Asynchronous.{AsyncBackend}
use anyserial.Stream.Port.{Wake}
use anyserial.Stream.Loop.{Op, Event}
use anyserial.AsyncPort.{Pending}
use anyserial.AsyncPort.Loop.{AsyncWorld, run, step}
use anyserial.AsyncPort.Exclusion.{count}
use anyserial.AsyncPort.Closing.{asks, IsUnasked, closed_asks_nothing}

abbrev loopback : AsyncBackend (List ℕ)
loopback = record {
  path = λ b. "COM3";
  is_open = λ b. true;
  open_port = λ path c b. (ok tt, b);
  aclose = λ b. (ok tt, []);
  receive = λ n b. (ok (take n b), drop n b);
  receive_into = λ buffer b. (ok (length (take (length buffer) b), buffer), drop (length buffer) b);
  send = λ xs b. (ok tt, b ++ xs);
  configure = λ c b. (ok tt, b);
  reset_input_buffer = λ b. (ok tt, []);
  reset_output_buffer = λ b. (ok tt, b);
  drain = λ b. (ok tt, b);
  send_break = λ d b. (ok tt, b);
  modem_lines = λ b. (ok (record { cts = true; dsr = true; ri = false; cd = true }), b);
  set_control_lines = λ rts dtr b. (ok tt, b);
  input_waiting = λ b. (ok (length b), b);
  output_waiting = λ b. (ok 0, b);
  interrupted = λ e b. b;
}

-- A read, a second read, a write and a reconfiguration, and how their awaits end.
abbrev events : List Event
events =
    Event.call (Op.receive (pos 4))
    ∷ Event.call (Op.receive (pos 4))
    ∷ Event.call (Op.send (1 ∷ 2 ∷ []))
    ∷ Event.call (Op.configure default_config)
    ∷ Event.wake 1 Wake.ready
    ∷ Event.wake 1 (Wake.threw Exn.cancelled)
    ∷ []

-- A closed port, with a read and the backend's `aclose` under way.
abbrev closing : AsyncWorld (List ℕ)
closing = record {
  port = record {
    backend = 7 ∷ [];
    config = default_config;
    closed = true;
    receive_guard = true;
    send_guard = false;
    configure_lock = false;
    close_lock = true;
  };
  tasks = Pending.closing ∷ Pending.receiving 4 ∷ [];
  results = [];
}

closed_asks_nothing_example :
    ((run loopback closing events).port.closed ≡ true)
    × (count asks (run loopback closing events).tasks ≤ 2)
    × ((e : Event)
        → IsUnasked loopback
            (run loopback closing events)
            (step loopback (run loopback closing events) e))
closed_asks_nothing_example = closed_asks_nothing loopback closing events refl
