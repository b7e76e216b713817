-- ===== src/Stream/Send.antt =====
-- `send`, `send_buffer` and `send_eof`, `drain`, `drain_exact` and `send_break`: what holds the
-- send guard. `send` and `send_buffer` differ only in how they view the caller's bytes.
pub mod Delivery
pub mod Progress
pub mod Break
pub mod Interval
use anyserial.Base.{
  ℕ, zero, suc, ◌+◌, ◌*◌, ◌/◌, ◌==◌, ltb, leb, max, length, drop, Bool, true, false, not, Option,
  none, some, List, [], ◌∷◌, ℤ, pos, negsuc, if◌then◌else◌,
}
use anyserial.Errors.{Exn, Result, ok, raise, Context, is_retry, is_os_error, errno_to_exception}
use anyserial.Config.{SerialConfig, Seconds, micros, infinity}
use anyserial.Backend.Protocol.{SyncBackend}
use anyserial.Stream.Port.{
  Port, Task, Wake, ready, threw, Reply, Outcome, finished, parked, closed_error, leave_send,
}

-- `_MIN_DRAIN_INTERVAL` and `_MAX_DRAIN_INTERVAL`, in thousandths of a second.
abbrev pub min_drain_ms : ℕ
min_drain_ms = 1

abbrev pub max_drain_ms : ℕ
max_drain_ms = 50

-- `min(max(pending / bps, 0.001), 0.050)`, as a fraction of a second.
unfoldable pub drain_interval : ℕ → ℕ → ℕ × ℕ
drain_interval pending bps =
    if leb (pending * 1000) (min_drain_ms * bps)
    then (min_drain_ms, 1000)
    else if leb (max_drain_ms * bps) (pending * 1000)
    then (max_drain_ms, 1000)
    else (pending, bps)

-- `max(baudrate // 10, 1)`
abbrev pub bytes_per_second : SerialConfig → ℕ
bytes_per_second c = max (c.baudrate / 10) 1

abbrev pub as_nothing : Result (Unit {0}) → Result Reply
as_nothing (ok _) = ok Reply.nothing
as_nothing (raise e) = raise e

-- `not duration >= 0`
unfoldable pub bad_duration : Seconds → Bool
bad_duration (micros (pos n)) = false
bad_duration infinity = false
bad_duration _ = true

-- How the sleep ended.
abbrev pub slept : Wake → Result Reply
slept ready = ok Reply.nothing
slept (threw e) = raise e

-- `finally: with suppress(OSError)`: an exception that is no OSError replaces the sleep's.
unfoldable pub after_release : Result (Unit {0}) → Result Reply → Result Reply
after_release (ok _) sleep = sleep
after_release (raise e) sleep = if is_os_error e then sleep else raise e

module _ {B : Type 0} (be : SyncBackend B) where
  unfoldable pub start_send : List ℕ → Port B → Port B × Outcome
  start_send [] p =
      if p.closed
      then (p, finished (raise (closed_error be p)))
      else (p, finished (ok Reply.nothing))
  start_send (x ∷ xs) p =
      if p.send_guard
      then (p, finished (raise Exn.busy_resource))
      else if p.closed
      then (p, finished (raise (closed_error be p)))
      else (record p { send_guard = true }, parked (Task.sending (x ∷ xs) (be.fileno p.backend)))

  -- The loop test, on what is left of the view.
  unfoldable pub send_loop : List ℕ → ℤ → Port B → Port B × Outcome
  send_loop [] fd p = leave_send p (ok Reply.nothing)
  send_loop (x ∷ xs) fd p = (p, parked (Task.sending (x ∷ xs) fd))

  -- After one write; a write of 0 bytes leaves the offset alone.
  unfoldable pub after_write : List ℕ → ℤ → Port B → Result ℕ → Port B × Outcome
  unfolding send_loop
  after_write rest fd p (ok n) = send_loop (drop n rest) fd p
  after_write rest fd p (raise e) =
      if is_retry e
      then (p, parked (Task.sending rest fd))
      else leave_send p (raise (errno_to_exception e Context.io (some (be.path p.backend))))

  unfoldable pub resume_send : List ℕ → ℤ → Wake → Port B → Port B × Outcome
  unfolding after_write
  resume_send rest fd (threw e) p = leave_send p (raise e)
  resume_send rest fd ready p =
      if p.closed
      then leave_send p (raise (closed_error be p))
      else (let (r, b) = be.write_nonblocking rest p.backend in
          after_write rest fd (record p { backend = b }) r)

  -- After the queue depth is known: return, or sleep for an interval.
  unfoldable pub after_pending : ℕ → Port B → Result ℕ → Port B × Outcome
  unfolding drain_interval
  after_pending bps p (raise e) =
      leave_send p (raise (errno_to_exception e Context.ioctl (some (be.path p.backend))))
  after_pending bps p (ok zero) = leave_send p (ok Reply.nothing)
  after_pending bps p (ok (suc n)) =
      let (above, below) = drain_interval (suc n) bps in (p, parked (Task.draining bps above below))

  -- One round of the polling loop.
  unfoldable pub drain_round : ℕ → Port B → Port B × Outcome
  unfolding after_pending
  drain_round bps p =
      if p.closed
      then leave_send p (raise (closed_error be p))
      else (let (r, b) = be.output_waiting p.backend in
          after_pending bps (record p { backend = b }) r)

  unfoldable pub start_drain : Port B → Port B × Outcome
  unfolding drain_round
  start_drain p =
      if p.send_guard
      then (p, finished (raise Exn.busy_resource))
      else if p.closed
      then (p, finished (raise (closed_error be p)))
      else drain_round (bytes_per_second p.config) (record p { send_guard = true })

  unfoldable pub resume_drain : ℕ → Wake → Port B → Port B × Outcome
  unfolding drain_round
  resume_drain bps (threw e) p = leave_send p (raise e)
  resume_drain bps ready p = drain_round bps p

  unfoldable pub start_send_eof : Port B → Port B × Outcome
  unfolding start_drain
  start_send_eof p = if p.closed then (p, finished (ok Reply.nothing)) else start_drain p

  unfoldable pub start_drain_exact : Port B → Port B × Outcome
  start_drain_exact p =
      if p.send_guard
      then (p, finished (raise Exn.busy_resource))
      else if p.closed
      then (p, finished (raise (closed_error be p)))
      else (record p { send_guard = true }, parked Task.draining_exact)

  -- The worker thread runs `tcdrain_blocking`; what it raises comes out as it is.
  unfoldable pub resume_drain_exact : Wake → Port B → Port B × Outcome
  resume_drain_exact (threw e) p = leave_send p (raise e)
  resume_drain_exact ready p =
      let (r, b) = be.tcdrain_blocking p.backend in
      leave_send (record p { backend = b }) (as_nothing r)

  unfoldable pub after_assert : Seconds → Port B → Result (Unit {0}) → Port B × Outcome
  after_assert duration p (ok _) = (p, parked (Task.breaking duration))
  after_assert duration p (raise e) =
      leave_send p (raise (errno_to_exception e Context.ioctl (some (be.path p.backend))))

  unfoldable pub start_send_break : Seconds → Port B → Port B × Outcome
  unfolding bad_duration after_assert
  start_send_break duration p =
      if bad_duration duration
      then (p, finished (raise Exn.value_error))
      else if p.send_guard
      then (p, finished (raise Exn.busy_resource))
      else if p.closed
      then (p, finished (raise (closed_error be p)))
      else (let (r, b) = be.set_break true p.backend in
          after_assert duration (record p { send_guard = true; backend = b }) r)

  unfoldable pub resume_send_break : Wake → Port B → Port B × Outcome
  unfolding after_release
  resume_send_break w p =
      let (r, b) = be.set_break false p.backend in
      leave_send (record p { backend = b }) (after_release r (slept w))
