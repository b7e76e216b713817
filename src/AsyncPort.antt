-- ===== src/AsyncPort.antt =====
-- src/anyserial/stream.py: `_AsyncBackendSerialPort`, the port over an asynchronous backend.
pub mod Loop
pub mod Exclusion
pub mod Closing
use anyserial.Base.{
  ℕ, ◌==◌, Bool, true, false, Option, none, some, List, [], ◌∷◌, ℤ, pos, negsuc, if◌then◌else◌,
}
use anyserial.Types.{ModemLines}
use anyserial.Errors.{Errno, Message, Exn, SerialClass, Result, ok, raise}
use anyserial.Config.{SerialConfig, Seconds}
use anyserial.Backend.Protocol.{Call}
use anyserial.Backend.Asynchronous.{AsyncBackend}
use anyserial.Stream.Port.{Wake, ready, threw, Reply}
use anyserial.Stream.Receive.{buffer_size}
use anyserial.Stream.Send.{bad_duration}

-- The fields of the port; the two locks are held or free.
pub record AsyncPort (B : Type 0) : Type 0 where
  pub backend : B
  pub config : SerialConfig
  pub closed : Bool
  pub receive_guard : Bool
  pub send_guard : Bool
  pub configure_lock : Bool
  pub close_lock : Bool

-- A coroutine parked in an await: of the backend, or for its turn at a lock.
pub data Pending : Type 0 where
  receiving : ℕ → Pending
  receiving_into sending : List ℕ → Pending
  draining resetting_input resetting_output reading_lines closing close_turn : Pending
  breaking : Seconds → Pending
  configuring configure_turn : SerialConfig → Pending
  setting_lines : Option Bool → Option Bool → Pending

pub data Progress : Type 0 where
  finished : Result Reply → Progress
  parked : Pending → Progress

abbrev pub nothing_of : Result (Unit {0}) → Result Reply
nothing_of (ok u) = ok Reply.nothing
nothing_of (raise e) = raise e

abbrev pub lines_of : Result ModemLines → Result Reply
lines_of (ok l) = ok (Reply.lines l)
lines_of (raise e) = raise e

abbrev pub amount_of : Result ℕ → Result Reply
amount_of (ok n) = ok (Reply.amount n)
amount_of (raise e) = raise e

module _ {B : Type 0} (be : AsyncBackend B) where
  -- `__init__`
  unfoldable pub new_async_port : B → SerialConfig → AsyncPort B
  new_async_port b c = record {
    backend = b;
    config = c;
    closed = false;
    receive_guard = false;
    send_guard = false;
    configure_lock = false;
    close_lock = false;
  }

  -- What `_raise_if_closed` raises.
  abbrev pub closed_error : AsyncPort B → Exn
  closed_error p = Exn.serial SerialClass.serial_closed (record {
    errno = some Errno.ebadf;
    strerror = some (Message.text "serial port is closed");
    filename = some (be.path p.backend);
  })

  -- What a read of no bytes raises.
  abbrev pub eof_error : AsyncPort B → Exn
  eof_error p = Exn.serial SerialClass.serial_disconnected (record {
    errno = some Errno.eio;
    strerror = some (Message.text "device returned EOF after readiness");
    filename = some (be.path p.backend);
  })

  -- `self._raise_if_closed()`, and then an await.
  abbrev pub unless_closed : Pending → AsyncPort B → AsyncPort B × Progress
  unless_closed t p = if p.closed then (p, finished (raise (closed_error p))) else (p, parked t)

  -- The same under the receive guard, and under the send guard.
  abbrev pub as_receiver : Pending → AsyncPort B → AsyncPort B × Progress
  as_receiver t p =
      if p.receive_guard
      then (p, finished (raise Exn.busy_resource))
      else if p.closed
      then (p, finished (raise (closed_error p)))
      else (record p { receive_guard = true }, parked t)

  abbrev pub as_sender : Pending → AsyncPort B → AsyncPort B × Progress
  as_sender t p =
      if p.send_guard
      then (p, finished (raise Exn.busy_resource))
      else if p.closed
      then (p, finished (raise (closed_error p)))
      else (record p { send_guard = true }, parked t)

  unfoldable pub start_receive : ℤ → AsyncPort B → AsyncPort B × Progress
  start_receive (negsuc n) p = (p, finished (raise Exn.value_error))
  start_receive (pos n) p =
      if n == 0 then (p, finished (raise Exn.value_error)) else as_receiver (Pending.receiving n) p

  unfoldable pub start_receive_into : List ℕ → AsyncPort B → AsyncPort B × Progress
  start_receive_into [] p = (p, finished (raise Exn.value_error))
  start_receive_into (x ∷ xs) p = as_receiver (Pending.receiving_into (x ∷ xs)) p

  -- The size of the read once the queue's depth is known; one of 0 is not asked for.
  abbrev pub sized : Option ℤ → AsyncPort B → Result ℕ × B → AsyncPort B × Progress
  sized limit p (raise e, b) = (record p { backend = b }, finished (raise e))
  sized limit p (ok waiting, b) =
      let size = buffer_size waiting p.config limit in
      if size == 0
      then (record p { backend = b }, finished (ok (Reply.received [])))
      else (record p { backend = b; receive_guard = true }, parked (Pending.receiving size))

  unfoldable pub start_receive_available : Option ℤ → AsyncPort B → AsyncPort B × Progress
  unfolding buffer_size
  start_receive_available limit p =
      if p.receive_guard
      then (p, finished (raise Exn.busy_resource))
      else if p.closed
      then (p, finished (raise (closed_error p)))
      else sized limit p (be.input_waiting p.backend)

  -- `_send_view`
  unfoldable pub start_send : List ℕ → AsyncPort B → AsyncPort B × Progress
  start_send [] p =
      if p.closed then (p, finished (raise (closed_error p))) else (p, finished (ok Reply.nothing))
  start_send (x ∷ xs) p = as_sender (Pending.sending (x ∷ xs)) p

  -- `drain` and `drain_exact`
  unfoldable pub start_drain : AsyncPort B → AsyncPort B × Progress
  start_drain = as_sender Pending.draining

  unfoldable pub start_send_eof : AsyncPort B → AsyncPort B × Progress
  unfolding start_drain
  start_send_eof p = if p.closed then (p, finished (ok Reply.nothing)) else start_drain p

  unfoldable pub start_send_break : Seconds → AsyncPort B → AsyncPort B × Progress
  start_send_break d p =
      if bad_duration d
      then (p, finished (raise Exn.value_error))
      else as_sender (Pending.breaking d) p

  -- The body of `configure`, with the lock taken.
  unfoldable pub enter_configure : SerialConfig → AsyncPort B → AsyncPort B × Progress
  enter_configure c p =
      if p.closed
      then (p, finished (raise (closed_error p)))
      else (record p { configure_lock = true }, parked (Pending.configuring c))

  -- A lock that is held is waited for.
  unfoldable pub turn_to_configure : SerialConfig → AsyncPort B → AsyncPort B × Progress
  unfolding enter_configure
  turn_to_configure c p =
      if p.configure_lock then (p, parked (Pending.configure_turn c)) else enter_configure c p

  -- The body of `aclose`, with the lock taken.
  unfoldable pub enter_close : AsyncPort B → AsyncPort B × Progress
  enter_close p =
      if p.closed
      then (p, finished (ok Reply.nothing))
      else (record p { closed = true; close_lock = true }, parked Pending.closing)

  unfoldable pub turn_to_close : AsyncPort B → AsyncPort B × Progress
  unfolding enter_close
  turn_to_close p = if p.close_lock then (p, parked Pending.close_turn) else enter_close p

  -- `input_waiting` and `output_waiting`
  unfoldable pub waiting : Call B ℕ → AsyncPort B → AsyncPort B × Progress
  waiting depth p =
      if p.closed
      then (p, finished (raise (closed_error p)))
      else (let (r, b) = depth p.backend in (record p { backend = b }, finished (amount_of r)))

  -- The end of an await of the backend.
  abbrev pub awaited : {A : Type 0} → Wake → Call B A → Call B A
  awaited ready call b = call b
  awaited (threw e) call b = (raise e, be.interrupted e b)

  -- What is made of the bytes and of the count of a read.
  abbrev pub some_bytes : AsyncPort B → Result (List ℕ) → Result Reply
  some_bytes p (ok []) = raise (eof_error p)
  some_bytes p (ok (x ∷ xs)) = ok (Reply.received (x ∷ xs))
  some_bytes p (raise e) = raise e

  abbrev pub some_count : AsyncPort B → Result (ℕ × List ℕ) → Result Reply
  some_count p (ok (n, buffer)) = if n == 0 then raise (eof_error p) else ok (Reply.filled n buffer)
  some_count p (raise e) = raise e

  -- `self._config = config`, if the backend's `configure` returned.
  abbrev pub reconfigured : SerialConfig → Result (Unit {0}) → AsyncPort B → AsyncPort B
  reconfigured c (ok u) p = record p { config = c; configure_lock = false }
  reconfigured c (raise e) p = record p { configure_lock = false }

  -- A parked coroutine, up to its end, or to the await under its lock. The backend's `aclose` is
  -- shielded, so that nothing is thrown into it.
  unfoldable pub resume : Pending → Wake → AsyncPort B → AsyncPort B × Progress
  unfolding turn_to_configure turn_to_close
  resume (Pending.receiving n) k p =
      let (r, b) = awaited k (be.receive n) p.backend in
      (
        record p { backend = b; receive_guard = false },
        finished (some_bytes (record p { backend = b }) r),
      )
  resume (Pending.receiving_into buffer) k p =
      let (r, b) = awaited k (be.receive_into buffer) p.backend in
      (
        record p { backend = b; receive_guard = false },
        finished (some_count (record p { backend = b }) r),
      )
  resume (Pending.sending xs) k p =
      let (r, b) = awaited k (be.send xs) p.backend in
      (record p { backend = b; send_guard = false }, finished (nothing_of r))
  resume Pending.draining k p =
      let (r, b) = awaited k be.drain p.backend in
      (record p { backend = b; send_guard = false }, finished (nothing_of r))
  resume (Pending.breaking d) k p =
      let (r, b) = awaited k (be.send_break d) p.backend in
      (record p { backend = b; send_guard = false }, finished (nothing_of r))
  resume Pending.resetting_input k p =
      let (r, b) = awaited k be.reset_input_buffer p.backend in
      (record p { backend = b }, finished (nothing_of r))
  resume Pending.resetting_output k p =
      let (r, b) = awaited k be.reset_output_buffer p.backend in
      (record p { backend = b }, finished (nothing_of r))
  resume Pending.reading_lines k p =
      let (r, b) = awaited k be.modem_lines p.backend in
      (record p { backend = b }, finished (lines_of r))
  resume (Pending.setting_lines rts dtr) k p =
      let (r, b) = awaited k (be.set_control_lines rts dtr) p.backend in
      (record p { backend = b }, finished (nothing_of r))
  resume (Pending.configuring c) k p =
      let (r, b) = awaited k (be.configure c) p.backend in
      (reconfigured c r (record p { backend = b }), finished (nothing_of r))
  resume Pending.closing k p =
      let (r, b) = be.aclose p.backend in
      (record p { backend = b; close_lock = false }, finished (nothing_of r))
  resume (Pending.configure_turn c) ready p = turn_to_configure c p
  resume (Pending.configure_turn c) (threw e) p = (p, finished (raise e))
  resume Pending.close_turn ready p = turn_to_close p
  resume Pending.close_turn (threw e) p = (p, finished (raise e))
