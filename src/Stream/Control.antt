-- ===== src/Stream/Control.antt =====
-- `aclose`, `configure` and the control surface: methods that hold no guard.
use anyserial.Base.{ℕ, Bool, true, Option, some, if◌then◌else◌}
use anyserial.Errors.{Result, ok, raise, Context, errno_to_exception}
use anyserial.Config.{SerialConfig}
use anyserial.Backend.Protocol.{SyncBackend, Call}
use anyserial.Stream.Port.{Port, Task, Reply, Outcome, finished, parked, closed_error}

abbrev pub as_reply {ℓ} : {A : Type ℓ} → (A → Reply) → Result A → Result Reply
as_reply f (ok a) = ok (f a)
as_reply f (raise e) = raise e

module _ {B : Type 0} (be : SyncBackend B) where
  -- `except OSError as exc: raise errno_to_exception(exc, context="ioctl", …)`
  abbrev pub ioctl_reply {ℓ} : {A : Type ℓ} → Port B → (A → Reply) → Result A → Result Reply
  ioctl_reply p f (ok a) = ok (f a)
  ioctl_reply p f (raise e) = raise (errno_to_exception e Context.ioctl (some (be.path p.backend)))

  -- `async with self._close_lock`: acquiring a lock is an await, also of a free one, and a
  -- cancellation may end it. What is done with the lock held has no await, so that no coroutine is
  -- parked while it holds the lock: a turn may come to any of those that wait, and the lock itself
  -- needs no field.
  unfoldable pub aclose : Port B → Port B × Outcome
  aclose p = (p, parked Task.close_turn)

  -- The body, with the lock held. The waiters that `notify_closing` wakes are resumed later, with a
  -- `threw`.
  unfoldable pub enter_close : Port B → Port B × Outcome
  enter_close p =
      if p.closed
      then (p, finished (ok Reply.nothing))
      else (let (r, b) = be.close p.backend in
          (record p { closed = true; backend = b }, finished (as_reply (λ _. Reply.nothing) r)))

  unfoldable pub after_configure : SerialConfig → Port B → Result (Unit {0}) → Port B × Outcome
  after_configure c p (ok _) = (record p { config = c }, finished (ok Reply.nothing))
  after_configure c p (raise e) =
      (p, finished (raise (errno_to_exception e Context.ioctl (some (be.path p.backend)))))

  -- `async with self._configure_lock`, likewise.
  unfoldable pub configure : SerialConfig → Port B → Port B × Outcome
  configure c p = (p, parked (Task.configure_turn c))

  unfoldable pub enter_configure : SerialConfig → Port B → Port B × Outcome
  unfolding after_configure
  enter_configure c p =
      if p.closed
      then (p, finished (raise (closed_error be p)))
      else (let (r, b) = be.configure c p.backend in after_configure c (record p { backend = b }) r)

  -- `reset_input_buffer`, `reset_output_buffer`, `modem_lines` and `set_control_lines`: one
  -- backend call, with OSError mapped.
  unfoldable pub control {ℓ} :
      {A : Type ℓ} → (B → Result A × B) → (A → Reply) → Port B → Port B × Outcome
  control call f p =
      if p.closed
      then (p, finished (raise (closed_error be p)))
      else (let (r, b) = call p.backend in (record p { backend = b }, finished (ioctl_reply p f r)))

  unfoldable pub reset_input_buffer : Port B → Port B × Outcome
  unfolding control
  reset_input_buffer = control be.reset_input_buffer (λ _. Reply.nothing)

  unfoldable pub reset_output_buffer : Port B → Port B × Outcome
  unfolding control
  reset_output_buffer = control be.reset_output_buffer (λ _. Reply.nothing)

  unfoldable pub modem_lines : Port B → Port B × Outcome
  unfolding control
  modem_lines = control be.modem_lines Reply.lines

  unfoldable pub set_control_lines : Option Bool → Option Bool → Port B → Port B × Outcome
  unfolding control
  set_control_lines rts dtr = control (be.set_control_lines rts dtr) (λ _. Reply.nothing)

  -- `input_waiting` and `output_waiting` let the OSError of the backend through.
  unfoldable pub waiting : Call B ℕ → Port B → Port B × Outcome
  waiting call p =
      if p.closed
      then (p, finished (raise (closed_error be p)))
      else (let (r, b) = call p.backend in
          (record p { backend = b }, finished (as_reply Reply.amount r)))
