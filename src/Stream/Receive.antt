-- ===== src/Stream/Receive.antt =====
-- `receive`, `receive_into` and `receive_available`.
pub mod Reading
use anyserial.Base.{
  ℕ, ◌==◌, ltb, length, drop, ◌++◌, true, Option, none, some, List, [], ◌∷◌, ℤ, pos, negsuc,
  if◌then◌else◌,
}
use anyserial.Errors.{Exn, Result, ok, raise, Context, is_retry, errno_to_exception}
use anyserial.Config.{SerialConfig}
use anyserial.Backend.Protocol.{SyncBackend}
use anyserial.Stream.Port.{
  Port, Task, Wake, ready, threw, Reply, Outcome, finished, parked, closed_error, eof_error,
  leave_receive,
}

-- The bytes read overwrite the front of the caller's buffer.
abbrev pub fill : List ℕ → List ℕ → Reply
fill buffer xs = Reply.filled (length xs) (xs ++ drop (length xs) buffer)

-- `min(size, limit)`, as a natural number: a limit of 0 or less leaves no room.
unfoldable pub limited : ℕ → Option ℤ → ℕ
limited size none = size
limited size (some (pos n)) = if ltb n size then n else size
limited size (some (negsuc n)) = 0

-- The size of the buffer: what waits, or else the configured chunk.
unfoldable pub buffer_size : ℕ → SerialConfig → Option ℤ → ℕ
unfolding limited
buffer_size waiting c limit = limited (if waiting == 0 then c.read_chunk_size else waiting) limit

module _ {B : Type 0} (be : SyncBackend B) where
  -- One read, after which the coroutine leaves or parks again as `again`.
  unfoldable pub after_read : Task → (List ℕ → Reply) → Port B → Result (List ℕ) → Port B × Outcome
  after_read again reply p (ok []) = leave_receive p (raise (eof_error be p))
  after_read again reply p (ok (x ∷ xs)) = leave_receive p (ok (reply (x ∷ xs)))
  after_read again reply p (raise e) =
      if is_retry e
      then (p, parked again)
      else leave_receive p (raise (errno_to_exception e Context.io (some (be.path p.backend))))

  -- The body of the read loop, from the end of its await to the next one.
  unfoldable pub read_step : Task → (List ℕ → Reply) → ℕ → Wake → Port B → Port B × Outcome
  unfolding after_read
  read_step again reply size (threw e) p = leave_receive p (raise e)
  read_step again reply size ready p =
      if p.closed
      then leave_receive p (raise (closed_error be p))
      else (let (r, b) = be.read_nonblocking size p.backend in
          after_read again reply (record p { backend = b }) r)

  unfoldable pub start_receive : ℤ → Port B → Port B × Outcome
  start_receive (negsuc n) p = (p, finished (raise Exn.value_error))
  start_receive (pos n) p =
      if n == 0
      then (p, finished (raise Exn.value_error))
      else if p.receive_guard
      then (p, finished (raise Exn.busy_resource))
      else if p.closed
      then (p, finished (raise (closed_error be p)))
      else (record p { receive_guard = true }, parked (Task.receiving n (be.fileno p.backend)))

  unfoldable pub resume_receive : ℕ → ℤ → Wake → Port B → Port B × Outcome
  unfolding read_step
  resume_receive n fd = read_step (Task.receiving n fd) Reply.received n

  unfoldable pub start_receive_into : List ℕ → Port B → Port B × Outcome
  start_receive_into buffer p =
      if length buffer == 0
      then (p, finished (raise Exn.value_error))
      else if p.receive_guard
      then (p, finished (raise Exn.busy_resource))
      else if p.closed
      then (p, finished (raise (closed_error be p)))
      else (
        record p { receive_guard = true },
        parked (Task.receiving_into buffer (be.fileno p.backend)),
      )

  unfoldable pub resume_receive_into : List ℕ → ℤ → Wake → Port B → Port B × Outcome
  unfolding read_step
  resume_receive_into buffer fd =
      read_step (Task.receiving_into buffer fd) (fill buffer) (length buffer)

  unfoldable pub start_receive_available : Option ℤ → Port B → Port B × Outcome
  start_receive_available limit p =
      if p.receive_guard
      then (p, finished (raise Exn.busy_resource))
      else if p.closed
      then (p, finished (raise (closed_error be p)))
      else (record p { receive_guard = true }, parked (Task.available limit (be.fileno p.backend)))

  -- After the queue depth is known: the first read.
  unfoldable pub after_waiting : Option ℤ → ℤ → Port B → Result ℕ → Port B × Outcome
  unfolding read_step buffer_size
  after_waiting limit fd p (raise e) = leave_receive p (raise e)
  after_waiting limit fd p (ok waiting) =
      let size = buffer_size waiting p.config limit in
      if size == 0
      then leave_receive p (ok (Reply.received []))
      else read_step (Task.available_again size fd) Reply.received size ready p

  unfoldable pub resume_available : Option ℤ → ℤ → Wake → Port B → Port B × Outcome
  unfolding after_waiting
  resume_available limit fd (threw e) p = leave_receive p (raise e)
  resume_available limit fd ready p =
      if p.closed
      then leave_receive p (raise (closed_error be p))
      else (let (r, b) = be.input_waiting p.backend in
          after_waiting limit fd (record p { backend = b }) r)

  unfoldable pub resume_available_again : ℕ → ℤ → Wake → Port B → Port B × Outcome
  unfolding read_step
  resume_available_again size fd = read_step (Task.available_again size fd) Reply.received size
