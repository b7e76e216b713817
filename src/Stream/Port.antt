-- ===== src/Stream/Port.antt =====
-- The state of a port, its guards, and what a coroutine can be doing.
use anyserial.Base.{ℕ, Bool, false, not, ◌&&◌, Option, some, List, ℤ}
use anyserial.Types.{ModemLines}
use anyserial.Errors.{Errno, Message, Exn, SerialClass, Result}
use anyserial.Config.{SerialConfig, Seconds}
use anyserial.Backend.Protocol.{SyncBackend}

-- The fields of `SerialPort`. A `ResourceGuard` is held or free; entering a held one raises
-- BusyResourceError.
pub record Port (B : Type 0) : Type 0 where
  pub backend : B
  pub config : SerialConfig
  pub closed : Bool
  pub receive_guard : Bool
  pub send_guard : Bool

-- A coroutine parked in an await, with the locals that it needs afterwards.
pub data Task : Type 0 where
  -- `receive`: wait_readable(fd), for at most so many bytes
  receiving : ℕ → ℤ → Task
  -- `receive_into`: wait_readable(fd), with the caller's buffer
  receiving_into : List ℕ → ℤ → Task
  -- `receive_available`: the first wait, with the limit
  available : Option ℤ → ℤ → Task
  -- `receive_available`: parked again, with the size of the buffer
  available_again : ℕ → ℤ → Task
  -- `_send_view`: wait_writable(fd), with `view[offset:]`
  sending : List ℕ → ℤ → Task
  -- `drain`: sleeping, with the bytes per second and the interval as a fraction of a second
  draining : ℕ → ℕ → ℕ → Task
  -- `drain_exact`: a worker thread is about to run `tcdrain_blocking`
  draining_exact : Task
  -- `send_break`: sleeping with BREAK asserted
  breaking : Seconds → Task
  -- `aclose` and `configure`: acquiring the lock
  close_turn : Task
  configure_turn : SerialConfig → Task

-- How an await ends: normally, or with an exception, such as the ClosedResourceError of
-- `notify_closing` or a cancellation.
pub data Wake : Type 0 where
  ready : Wake
  threw : Exn → Wake

-- What a method returns.
pub data Reply : Type 0 where
  nothing : Reply
  received : List ℕ → Reply
  -- the count, and the buffer as it is now
  filled : ℕ → List ℕ → Reply
  lines : ModemLines → Reply
  amount : ℕ → Reply

pub data Outcome : Type 0 where
  finished : Result Reply → Outcome
  parked : Task → Outcome

module _ {B : Type 0} (be : SyncBackend B) where
  -- What `_raise_if_closed` raises.
  abbrev pub closed_error : Port B → Exn
  closed_error p = Exn.serial SerialClass.serial_closed (record {
    errno = some Errno.ebadf;
    strerror = some (Message.text "serial port is closed");
    filename = some (be.path p.backend);
  })

  -- What a read of 0 bytes raises.
  abbrev pub eof_error : Port B → Exn
  eof_error p = Exn.serial SerialClass.serial_disconnected (record {
    errno = some Errno.eio;
    strerror = some (Message.text "device returned EOF after readiness");
    filename = some (be.path p.backend);
  })

  -- `__init__`: an opened backend with its configuration.
  unfoldable pub new_port : B → SerialConfig → Port B
  new_port b c = record {
    backend = b;
    config = c;
    closed = false;
    receive_guard = false;
    send_guard = false;
  }

  -- `is_open`
  unfoldable pub is_open : Port B → Bool
  is_open p = not p.closed && be.is_open p.backend

-- The end of a `with` block on a guard, and of the method.
module _ {B : Type 0} where
  abbrev pub leave_receive : Port B → Result Reply → Port B × Outcome
  leave_receive p r = (record p { receive_guard = false }, Outcome.finished r)

  abbrev pub leave_send : Port B → Result Reply → Port B × Outcome
  leave_send p r = (record p { send_guard = false }, Outcome.finished r)
