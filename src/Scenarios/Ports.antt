-- ===== src/Scenarios/Ports.antt =====
-- The theorems about a port and about the mock, at concrete ports on a memory socket.
use anyserial.Base.{ℕ, ◌≡◌, refl, true, false, some, List, [], ◌∷◌, pos, arith}
use anyserial.Errors.{Exn, ok}
use anyserial.Config.{default_config, micros}
use anyserial.Backend.Protocol.{WritesFromFront}
use anyserial.Stream.Port.{Port, Task, Wake, ready, threw, Reply, finished, parked}
use anyserial.Stream.Receive.Reading.{resume-Answer, Answer}
use anyserial.Stream.Send.{start_send, start_send_break, drain_interval, resume_send_break}
use anyserial.Stream.Send.Delivery.{attend, attend-start_send, Delivered, Turn}
use anyserial.Stream.Send.Progress.{send_ends, ready_turns}
use anyserial.Stream.Send.Break.{break-Released, Released}
use anyserial.Stream.Send.Interval.{drain_interval-IsInterval, IsInterval}
use anyserial.Stream.Loop.{Op, Event, call, wake, World, resume, pull, run, step, fresh}
use anyserial.Stream.Loop.Exclusion.{run-IsExclusive, IsExclusive}
use anyserial.Stream.Loop.Closing.{close_is_final, resume_closed, ends_closed}
use anyserial.Mock.{Mock, set_break, reset_input_buffer}
use anyserial.Mock.Wire.{mock_backend-WritesFromFront, mock_wire}
use anyserial.Mock.Faults.{attend_receive, attend_receive-delayed, failing}
use anyserial.Mock.Reset.{reset_input_buffer-empties}
use anyserial.Scenarios.Memory.{
  Memory, memory_socket, memory_backend, outgoing, incoming, enough, break_line, mock, port,
  closed_port, memory-SendsFromFront, memory-ReceivesQueued, memory-ReadsWithin,
  memory-SwitchesBreak, memory-TakesSome, Unhindered,
}

abbrev wire : Mock Memory → List ℕ
wire = mock_wire memory_socket enough outgoing

abbrev bytes : List ℕ
bytes = 4 ∷ 5 ∷ 6 ∷ []

abbrev turns : List (Turn memory_backend)
turns = (λ p. p, ready) ∷ (λ p. p, ready) ∷ []

attend-start_send_example :
    Delivered memory_backend wire [] bytes
      (attend memory_backend turns (start_send memory_backend bytes port))
attend-start_send_example =
    attend-start_send memory_backend wire
      (mock_backend-WritesFromFront memory_socket enough outgoing memory-SendsFromFront) bytes port
      turns (λ p. refl, (λ p. refl, tt))

send_ends_example :
    (attend memory_backend (ready_turns memory_backend 3) (start_send memory_backend bytes port)).1
    ≡ finished (ok Reply.nothing)
send_ends_example = send_ends memory_backend Unhindered memory-TakesSome bytes port refl refl refl

resume-Answer_example :
    Answer memory_backend memory-ReadsWithin
      (Task.receiving 2 (pos 7))
      mock
      (resume memory_backend (Task.receiving 2 (pos 7)) ready port).1
resume-Answer_example =
    resume-Answer memory_backend memory-ReadsWithin (Task.receiving 2 (pos 7)) ready port
      (omega arith)

break_started :
    (start_send_break memory_backend (micros (pos 5)) port).1
    ≡ parked (Task.breaking (micros (pos 5)))
unfolding start_send_break set_break
break_started = refl

break-Released_example :
    (break_line (start_send_break memory_backend (micros (pos 5)) port).0.backend ≡ true)
    × (Task.breaking (micros (pos 5)) ≡ Task.breaking (micros (pos 5)))
    × ((k : Wake) (p : Port (Mock Memory))
        → let (q, o) = resume_send_break memory_backend k p in
          Released memory_backend break_line (memory_backend.set_break false p.backend).0 k q o)
break-Released_example =
    break-Released memory_backend break_line memory-SwitchesBreak (micros (pos 5)) port
      (Task.breaking (micros (pos 5))) break_started

drain_interval_example :
    let (above, below) = drain_interval 100 960 in IsInterval 100 960 above below
drain_interval_example = drain_interval-IsInterval 100 960 (omega arith)

run-IsExclusive_example : IsExclusive (
    run memory_backend
      (fresh memory_backend mock default_config)
      (call (Op.receive (pos 4)) ∷ call (Op.send bytes) ∷ wake 1 ready ∷ []))
run-IsExclusive_example =
    run-IsExclusive memory_backend mock default_config
      (call (Op.receive (pos 4)) ∷ call (Op.send bytes) ∷ wake 1 ready ∷ [])

abbrev waiting_reader : World (Mock Memory)
waiting_reader = record {
  port = (record port { receive_guard = true });
  tasks = Task.close_turn ∷ Task.receiving 4 (pos 7) ∷ [];
  results = [];
}

abbrev later : List Event
later = call (Op.send bytes) ∷ wake 0 ready ∷ call Op.close ∷ []

first_closes : pull 0 waiting_reader.tasks ≡ some (Task.close_turn, Task.receiving 4 (pos 7) ∷ [])
unfolding pull
first_closes = refl

close_is_final_example :
    ((e : Exn) → (step memory_backend waiting_reader (wake 0 (threw e))).port ≡ waiting_reader.port)
    × (let after = run memory_backend (step memory_backend waiting_reader (wake 0 ready)) later in
        (after.port.closed ≡ true) × (after.port.backend ≡ (memory_backend.close mock).1))
close_is_final_example =
    close_is_final memory_backend waiting_reader 0 (Task.receiving 4 (pos 7) ∷ []) later
      first_closes refl refl

resume_closed_example :
    (ends_closed
        (Task.sending bytes (pos 7))
        ready
        (resume memory_backend (Task.sending bytes (pos 7)) ready closed_port).1
      ≡ true)
    × ((resume memory_backend (Task.sending bytes (pos 7)) ready closed_port).0.closed ≡ true)
    × ((resume memory_backend (Task.sending bytes (pos 7)) ready closed_port).0.backend ≡ mock)
resume_closed_example =
    resume_closed memory_backend (Task.sending bytes (pos 7)) ready closed_port refl refl

mock_backend-WritesFromFront_example : WritesFromFront memory_backend wire
mock_backend-WritesFromFront_example =
    mock_backend-WritesFromFront memory_socket enough outgoing memory-SendsFromFront

attend_receive-delayed_example :
    attend_receive memory_backend 4
      (failing memory_socket enough port 2 1, parked (Task.receiving 2 (pos 7)))
    ≡ attend_receive memory_backend 1
        (failing memory_socket enough port 0 0, parked (Task.receiving 2 (pos 7)))
attend_receive-delayed_example =
    attend_receive-delayed memory_socket enough port 2 1 1 2 (pos 7)
      (record { opened = refl; no_eio = refl; no_parity = refl; connected = refl })

reset_input_buffer-empties_example :
    let (r, after) = reset_input_buffer memory_socket enough mock in
    (r ≡ ok tt) × (after.this.sock.incoming ≡ [])
reset_input_buffer-empties_example =
    reset_input_buffer-empties memory_socket incoming memory-ReceivesQueued mock
