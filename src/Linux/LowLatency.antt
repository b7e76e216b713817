-- ===== src/Linux/LowLatency.antt =====
-- src/anyserial/_linux/low_latency.py: `ASYNC_LOW_LATENCY`, and the latency timer of FTDI adapters.
pub mod Restore
use anyserial.Base.{
  ℕ, zero, suc, ◌==◌, ltb, not, Bool, true, false, String, Option, none, some, List, [], ◌∷◌, ℤ,
  pos, negsuc, if◌then◌else◌,
}
use anyserial.Bits.{◌&◌, ◌¦◌, ◌&~◌}
use anyserial.Errors.{Exn, Result, ok, raise, is_os_error}
use anyserial.Backend.Protocol.{Call}
use anyserial.Posix.Kernel.{pure, lift, resume_with, ◌>>=◌, ◌>>◌, handle}
use anyserial.Linux.Kernel.{LinuxKernel}

abbrev pub tiocgserial : ℕ
tiocgserial = 21534

abbrev pub tiocsserial : ℕ
tiocsserial = 21535

abbrev pub async_low_latency : ℕ
async_low_latency = 8192

-- `_FLAGS_INDEX`
abbrev pub flags_index : ℕ
flags_index = 4

-- `_BUF_INTS`
abbrev pub buf_ints : ℕ
buf_ints = 32

-- `[0] * n`
abbrev pub zero_ints : ℕ → List ℤ
zero_ints zero = []
zero_ints (suc n) = pos 0 ∷ zero_ints n

-- `_new_buffer`
abbrev pub new_buffer : List ℤ
new_buffer = zero_ints buf_ints

-- `buf[index]`
unfoldable pub slot : List ℤ → ℕ → Result ℤ
slot [] i = raise Exn.index_error
slot (x ∷ xs) zero = ok x
slot (x ∷ xs) (suc i) = slot xs i

-- An element of an array of ints has 32 bits.
abbrev pub fits_int : ℤ → Bool
fits_int (pos n) = ltb n 2147483648
fits_int (negsuc n) = ltb n 2147483648

-- `buf[index] = value`, for a value that fits.
unfoldable pub put_slot : List ℤ → ℕ → ℤ → Result (List ℤ)
put_slot [] i v = raise Exn.index_error
put_slot (x ∷ xs) zero v = ok (v ∷ xs)
put_slot (x ∷ xs) (suc i) v = elim (put_slot xs i v) [ ok ys ↦ ok (x ∷ ys) | raise e ↦ raise e ]

unfoldable pub assign_slot : List ℤ → ℕ → ℤ → Result (List ℤ)
unfolding put_slot
assign_slot xs i v = if fits_int v then put_slot xs i v else raise Exn.overflow_error

-- `n & bit` is not 0, on Python's ints: -(n + 1) has the bits that `n` lacks.
unfoldable pub has_bit : ℤ → ℕ → Bool
has_bit (pos n) m = not (n & m == 0)
has_bit (negsuc n) m = not (m &~ n == 0)

-- `n | bits`
unfoldable pub or_bits : ℤ → ℕ → ℤ
or_bits (pos n) m = pos (n ¦ m)
or_bits (negsuc n) m = negsuc (n &~ m)

-- The saved state of an FTDI adapter.
pub record FtdiLatencyTimer : Type 0 where
  pub path : String
  pub original_ms : ℤ

abbrev pub sys_class_tty : String
sys_class_tty = "/sys/class/tty"

abbrev pub ftdi_driver_name : String
ftdi_driver_name = "ftdi_sio"

-- `_FTDI_LATENCY_TIMER_TARGET_MS`
abbrev pub target_ms : ℤ
target_ms = pos 1

abbrev pub same_int : ℤ → ℤ → Bool
same_int (pos n) (pos m) = n == m
same_int (negsuc n) (negsuc m) = n == m
same_int _ _ = false

-- `except (OSError, RuntimeError)` catches it.
abbrev pub is_resolve_error : Exn → Bool
is_resolve_error Exn.runtime_error = true
is_resolve_error e = is_os_error e

-- `if value is None: return None`
abbrev pub or_none : {K A B : Type 0} → (A → Call K (Option B)) → Option A → Call K (Option B)
or_none rest none = pure none
or_none rest (some a) = rest a

module _ {K : Type 0} (sys : LinuxKernel K) where
  unfoldable pub read_serial_flags : ℤ → Call K ℤ
  unfolding slot
  read_serial_flags fd =
      sys.ioctl_ints fd tiocgserial new_buffer >>= λ buf. lift (slot buf flags_index)

  unfoldable pub write_serial_flags : ℤ → ℤ → Call K (Unit {0})
  unfolding assign_slot
  write_serial_flags fd flags = sys.ioctl_ints fd tiocgserial new_buffer >>= λ buf.
      lift (assign_slot buf flags_index flags) >>= λ changed.
      sys.ioctl_ints fd tiocsserial changed >> pure tt

  unfoldable pub set_flag : ℤ → ℤ → Call K ℤ
  unfolding write_serial_flags has_bit or_bits
  set_flag fd original =
      if has_bit original async_low_latency
      then pure original
      else write_serial_flags fd (or_bits original async_low_latency) >> pure original

  unfoldable pub enable_low_latency : ℤ → Call K ℤ
  unfolding read_serial_flags set_flag
  enable_low_latency fd = read_serial_flags fd >>= set_flag fd

  unfoldable pub restore_serial_flags : ℤ → ℤ → Call K (Unit {0})
  unfolding write_serial_flags
  restore_serial_flags = write_serial_flags

  -- `_tty_name`
  unfoldable pub tty_name : String → String
  tty_name = sys.name

  -- The timer's path, where the driver behind the resolved link is FTDI's.
  unfoldable pub timer_of_driver : String → String → Call K (Option String)
  timer_of_driver tty driver =
      if sys.same (sys.name driver) ftdi_driver_name
      then (let path = sys.join (sys.join (sys.join sys_class_tty tty) "device") "latency_timer" in
          sys.path_exists path >>= λ found. pure (if found then some path else none))
      else pure none

  unfoldable pub resolved_driver : String → Call K (Option String)
  resolved_driver tty k =
      handle is_resolve_error (λ e. pure none)
        ((sys.resolve (sys.join (sys.join (sys.join sys_class_tty tty) "device") "driver")
            >>= λ driver. pure (some driver))
          k)

  unfoldable pub ftdi_latency_timer_path : String → Call K (Option String)
  unfolding tty_name timer_of_driver resolved_driver
  ftdi_latency_timer_path device_path =
      resolved_driver (tty_name device_path) >>= or_none (timer_of_driver (tty_name device_path))

  unfoldable pub read_latency_timer : String → Call K ℤ
  read_latency_timer path = sys.read_text path >>= λ text. lift (sys.int_of_text text)

  unfoldable pub write_latency_timer : String → ℤ → Call K (Unit {0})
  write_latency_timer path value_ms = sys.write_text path (sys.line_of_int value_ms)

  -- What is done with a timer that was found.
  unfoldable pub tune_timer : String → Call K (Option FtdiLatencyTimer)
  unfolding read_latency_timer write_latency_timer
  tune_timer path = read_latency_timer path >>= λ original.
      (if same_int original target_ms then pure tt else write_latency_timer path target_ms)
      >> pure (some (record { path = path; original_ms = original }))

  unfoldable pub tune_ftdi_latency_timer : String → Call K (Option FtdiLatencyTimer)
  unfolding ftdi_latency_timer_path tune_timer
  tune_ftdi_latency_timer device_path = ftdi_latency_timer_path device_path >>= or_none tune_timer

  unfoldable pub restore_ftdi_latency_timer : FtdiLatencyTimer → Call K (Unit {0})
  unfolding write_latency_timer
  restore_ftdi_latency_timer saved = write_latency_timer saved.path saved.original_ms
