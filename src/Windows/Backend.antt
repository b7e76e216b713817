-- ===== src/Windows/Backend.antt =====
-- src/anyserial/_windows/backend.py: `WindowsBackend`. A coroutine of the backend runs as one call.
pub mod Calls
pub mod Handles
pub mod Delivery
pub mod Lifetime
pub mod Control
use anyserial.Base.{
  ℕ, zero, suc, ◌==◌, ltb, length, drop, Bool, true, false, not, String, Option, none, some, List,
  [], ◌∷◌, ◌++◌, ◌||◌, if◌then◌else◌,
}
use text.Mathlib.Text.{starts_with}
use Prim.Native.String.{◌++◌ as append}
use anyserial.Bits.{◌&◌, ◌¦◌}
use anyserial.Types.{ModemLines, CommEvent}
use anyserial.Errors.{Errno, Message, Exn, SerialClass, Context, Result, ok, raise, is_os_error}
use anyserial.Config.{SerialConfig, Seconds}
use anyserial.Backend.Protocol.{Call}
use anyserial.Posix.Kernel.{pure, raising, lift, resume_with, ◌>>=◌, ◌>>◌, handle, suppressed}
use anyserial.Posix.Ioctl.{has}
use anyserial.Windows.Dcb.{Dcb, apply_config}
use anyserial.Windows.Errors.{WinErrors, winerror_to_exception}
use anyserial.Windows.Kernel32.{Kernel32}

-- The fields of the backend but for those of the runtime's glue.
pub record Windows (K : Type 0) : Type 0 where
  pub path : String
  pub handle : ℕ
  pub is_open : Bool
  pub config : Option SerialConfig
  pub kernel : K

-- `__init__`
abbrev pub new_windows : {K : Type 0} → K → Windows K
new_windows k = record { path = ""; handle = 0; is_open = false; config = none; kernel = k }

abbrev pub ev_all_modem : ℕ
ev_all_modem = 8 ¦ 16 ¦ 32 ¦ 64 ¦ 128 ¦ 256

-- `build_read_any_timeouts`: interval, multiplier and constant of a read, and those of a write.
abbrev pub read_any_timeouts : List ℕ
read_any_timeouts = 4294967295 ∷ 4294967295 ∷ 1 ∷ 0 ∷ 0 ∷ []

abbrev pub queue_size : ℕ
queue_size = 4096

-- `SerialClosedError(0, "WindowsBackend is closed", self._path)`
abbrev pub closed_error : String → Exn
closed_error path = Exn.serial SerialClass.serial_closed (record {
  errno = some (Errno.other 0);
  strerror = some (Message.text "WindowsBackend is closed");
  filename = some path;
})

abbrev pub no_progress : String → Exn
no_progress path = Exn.serial SerialClass.serial_disconnected (record {
  errno = some (Errno.other 0);
  strerror = some (Message.text "WriteFile returned 0 bytes");
  filename = some path;
})

-- A path that carries a device prefix stays as it is.
abbrev pub normalise_com_path : String → String
normalise_com_path path =
    if starts_with path "\\\\.\\" || starts_with path "\\\\?\\" then path else append "\\\\.\\" path

module _ {K : Type 0} where
  abbrev pub on_kernel : {A : Type 0} → Call K A → Call (Windows K) A
  on_kernel f b = let (r, k) = f b.kernel in (r, record b { kernel = k })

  -- `self._raise_if_closed()`, before the rest of a method.
  abbrev pub unless_closed : {A : Type 0} → Call (Windows K) A → Call (Windows K) A
  unless_closed body b = if b.is_open then body b else (raise (closed_error b.path), b)

module _ {K : Type 0} (sys : Kernel32 K) (host : WinErrors) where
  -- `except OSError as exc: raise winerror_to_exception(exc, …)`
  abbrev pub mapped : {A : Type 0} → Context → String → Call K A → Call K A
  mapped context path call k =
      handle is_os_error (λ e. raising (winerror_to_exception host e context path)) (call k)

  -- `_apply_dcb`
  unfoldable pub apply_dcb : ℕ → SerialConfig → Call K (Unit {0})
  unfolding apply_config
  apply_dcb h c = sys.get_comm_state h >>= λ dcb. sys.set_comm_state h (apply_config c dcb)

  -- The body of the `try` that sets the handle up.
  unfoldable pub set_up : ℕ → SerialConfig → Call K (Unit {0})
  unfolding apply_dcb
  set_up h c =
      sys.setup_comm h queue_size queue_size
      >> apply_dcb h c
      >> sys.set_comm_timeouts h read_any_timeouts

  -- An OSError there: the handle is closed, whether or not that reports another OSError, and the
  -- first goes on as it is mapped.
  abbrev pub abandon : String → ℕ → Exn → Call (Windows K) (Unit {0})
  abandon path h e b =
      resume_with
        (λ u c. (
          raise (winerror_to_exception host e Context.opening path),
          record c { handle = 0; is_open = false },
        ))
        (suppressed (on_kernel (sys.close_handle h) b))

  abbrev pub or_abandon : String → ℕ → Result (Unit {0}) × Windows K → Result (Unit {0}) × Windows K
  or_abandon path h (ok u, b) = (ok u, b)
  or_abandon path h (raise e, b) = if is_os_error e then abandon path h e b else (raise e, b)

  -- What `open` does after the handle is set up.
  unfoldable pub finish_open : ℕ → SerialConfig → Call (Windows K) (Unit {0})
  finish_open h c =
      on_kernel (sys.register h) >> on_kernel (sys.set_comm_mask h ev_all_modem) >> λ b.
      (ok tt, record b { config = some c; is_open = true })

  -- With the handle taken.
  unfoldable pub use_handle : String → SerialConfig → ℕ → Call (Windows K) (Unit {0})
  unfolding set_up finish_open
  use_handle path c h b =
      resume_with (λ u. finish_open h c)
        (or_abandon path h (on_kernel (set_up h c) (record b { handle = h })))

  unfoldable pub open_port : String → SerialConfig → Call (Windows K) (Unit {0})
  unfolding use_handle
  open_port path c b =
      if b.is_open
      then (raise Exn.runtime_error, b)
      else resume_with (use_handle path c) (
          on_kernel
            (sys.detect_runtime
              >> mapped Context.opening path (sys.create_file (normalise_com_path path)))
            (record b { path = path }))

  -- The three steps of `aclose` on a handle, each with its OSError suppressed.
  unfoldable pub tear_down : ℕ → Call K (Unit {0})
  tear_down h =
      (λ k. suppressed (sys.set_comm_mask h 0 k))
      >> (λ k. suppressed (sys.purge_comm h (2 ¦ 1 ¦ 8 ¦ 4) k))
      >> λ k. suppressed (sys.close_handle h k)

  unfoldable pub aclose : Call (Windows K) (Unit {0})
  unfolding tear_down
  aclose b =
      if b.is_open
      then on_kernel (tear_down b.handle) (record b { is_open = false; handle = 0 })
      else (ok tt, b)

  -- `_readinto_until_data`: a read that completed with no bytes is issued again. `none` is where
  -- so many reads in a row completed empty.
  unfoldable pub read_until_data : ℕ → ℕ → String → ℕ → K → Option (Result (List ℕ) × K)
  read_until_data zero h path n k = none
  read_until_data (suc rounds) h path n k =
      let x = mapped Context.io path (sys.readinto h n) k in
      let rest = read_until_data rounds h path n x.1 in
      elim x.0 [
        | ok [] ↦ rest
        | ok (y ∷ ys) ↦ some (ok (y ∷ ys), x.1)
        | raise e ↦ some (raise e, x.1)
      ]

  abbrev pub with_kernel :
      Windows K → Option (Result (List ℕ) × K) → Option (Result (List ℕ) × Windows K)
  with_kernel b none = none
  with_kernel b (some (r, k)) = some (r, record b { kernel = k })

  unfoldable pub receive : ℕ → ℕ → Windows K → Option (Result (List ℕ) × Windows K)
  unfolding read_until_data
  receive rounds n b =
      if b.is_open
      then with_kernel b (read_until_data rounds b.handle b.path n b.kernel)
      else some (raise (closed_error b.path), b)

  -- The bytes at the start of the caller's buffer.
  abbrev pub filled :
      List ℕ → Option (Result (List ℕ) × Windows K) → Option (Result (ℕ × List ℕ) × Windows K)
  filled buffer none = none
  filled buffer (some (ok xs, b)) = some (ok (length xs, xs ++ drop (length xs) buffer), b)
  filled buffer (some (raise e, b)) = some (raise e, b)

  unfoldable pub receive_into : ℕ → List ℕ → Windows K → Option (Result (ℕ × List ℕ) × Windows K)
  unfolding receive
  receive_into rounds buffer b = filled buffer (receive rounds (length buffer) b)

  -- `send`: what is left goes to the next write. Every round but the last takes a byte or more, so
  -- that the length of the data is enough rounds.
  unfoldable pub write_loop : ℕ → ℕ → String → List ℕ → Call K (Unit {0})
  write_loop zero h path xs k = (ok tt, k)
  write_loop (suc rounds) h path [] k = (ok tt, k)
  write_loop (suc rounds) h path (x ∷ xs) k =
      resume_with
        (λ n k'.
          let rest = write_loop rounds h path (drop n (x ∷ xs)) k' in
          if n == 0 then (raise (no_progress path), k') else rest)
        (mapped Context.io path (sys.write h (x ∷ xs)) k)

  unfoldable pub send : List ℕ → Call (Windows K) (Unit {0})
  unfolding write_loop
  send xs = unless_closed (λ b. on_kernel (write_loop (length xs) b.handle b.path xs) b)
