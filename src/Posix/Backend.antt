-- ===== src/Posix/Backend.antt =====
-- src/anyserial/_posix/backend.py: `PosixBackend`, over the kernel's calls.
pub mod Applied
pub mod Descriptors
pub mod Port
use anyserial.Base.{
  ℕ, Bool, true, false, not, String, Option, none, some, List, ℤ, pos, negsuc, is_negative,
  if◌then◌else◌,
}
use anyserial.Types.{ModemLines}
use anyserial.Errors.{Errno, Message, Exn, Result, ok, raise, is_blocking}
use anyserial.Config.{SerialConfig}
use anyserial.Backend.Protocol.{Call, SyncBackend}
use anyserial.Posix.Termios.{Constants, build}
use anyserial.Posix.Ioctl.{Requests}
use anyserial.Posix.Ioctl
use anyserial.Posix.Baudrate.{baudrate_to_speed}
use anyserial.Posix.Kernel.{Kernel, pure, raising, lift, resume_with, ◌>>=◌, ◌>>◌, handle}

-- The fields of a backend, and the kernel that it calls. The descriptor of a closed one is -1.
pub record Posix (K : Type 0) : Type 0 where
  pub fd : ℤ
  pub path : String
  pub config : Option SerialConfig
  pub kernel : K

-- What the host's modules say: `termios` with the request codes, and the standard rates.
pub record Platform : Type 0 where
  pub constants : Constants
  pub requests : Requests
  pub speeds : List (ℕ × ℕ)

abbrev pub no_fd : ℤ
no_fd = negsuc 0

-- `__init__`
abbrev pub new_posix : {K : Type 0} → K → Posix K
new_posix k = record { fd = no_fd; path = ""; config = none; kernel = k }

-- `self._fd >= 0`
unfoldable pub is_open : {K : Type 0} → Posix K → Bool
is_open b = not (is_negative b.fd)

-- `OSError(EBUSY, msg, path)`
abbrev pub locked_error : String → Exn
locked_error path = Exn.os_error (record {
  errno = some Errno.ebusy;
  strerror = some (Message.text "port is exclusively locked by another process");
  filename = some path;
})

module _ {K : Type 0} where
  -- A call on the backend's kernel.
  abbrev pub on_kernel : {A : Type 0} → Call K A → Call (Posix K) A
  on_kernel f b = let (r, k) = f b.kernel in (r, record b { kernel = k })

module _ {K : Type 0} (sys : Kernel K) where
  unfoldable pub acquire_exclusive_lock : ℤ → String → Call K (Unit {0})
  acquire_exclusive_lock fd path k =
      handle is_blocking (λ e. raising (locked_error path)) (sys.flock fd k)

  -- After a failure, `os.close(fd)` and the exception again; one of `os.close` takes its place.
  abbrev pub give_up : {A : Type 0} → ℤ → Exn → Call K A
  give_up fd e k = resume_with (λ _. raising e) (sys.close fd k)

  -- `except BaseException: os.close(fd); raise`
  abbrev pub or_close : ℤ → Result (Unit {0}) × K → Result (Unit {0}) × K
  or_close fd (ok u, k) = (ok u, k)
  or_close fd (raise e, k) = give_up fd e k

  -- The lock and the configuration of a descriptor that was just opened; `apply` is the
  -- `_apply_config_to_fd` of the backend's class.
  module _ (apply : ℤ → SerialConfig → Call K (Unit {0})) where
    unfoldable pub set_up : ℤ → String → SerialConfig → Call K (Unit {0})
    unfolding acquire_exclusive_lock
    set_up fd path c =
        (if c.exclusive then acquire_exclusive_lock fd path else pure tt) >> apply fd c

    -- What `open` does with a descriptor before it keeps it.
    unfoldable pub hand_out : String → SerialConfig → ℕ → Call K ℕ
    unfolding set_up
    hand_out path c fd k = resume_with (λ _. pure fd) (or_close (pos fd) (set_up (pos fd) path c k))

    -- A descriptor for the path, set up.
    unfoldable pub open_fd : String → SerialConfig → Call K ℕ
    unfolding hand_out
    open_fd path c = sys.open_device path >>= hand_out path c

    abbrev pub keep : String → SerialConfig → Posix K → Result ℕ × K → Result (Unit {0}) × Posix K
    keep path c b (ok fd, k) =
        (ok tt, (record { fd = pos fd; path = path; config = some c; kernel = k }))
    keep path c b (raise e, k) = (raise e, record b { kernel = k })

    unfoldable pub open_port : String → SerialConfig → Call (Posix K) (Unit {0})
    unfolding open_fd
    open_port path c b =
        if is_open b then (raise Exn.runtime_error, b) else keep path c b (open_fd path c b.kernel)

    abbrev pub keep_config :
        SerialConfig → Result (Unit {0}) × Posix K → Result (Unit {0}) × Posix K
    keep_config c (ok u, b) = (ok u, record b { config = some c })
    keep_config c (raise e, b) = (raise e, b)

    unfoldable pub configure : SerialConfig → Call (Posix K) (Unit {0})
    configure c b = keep_config c (on_kernel (apply b.fd c) b)

  unfoldable pub close : Call (Posix K) (Unit {0})
  close b = if is_open b then on_kernel (sys.close b.fd) (record b { fd = no_fd }) else (ok tt, b)

  unfoldable pub read_nonblocking : ℕ → Call (Posix K) (List ℕ)
  read_nonblocking n b = on_kernel (sys.readv b.fd n) b

  unfoldable pub write_nonblocking : List ℕ → Call (Posix K) ℕ
  write_nonblocking data' b = on_kernel (sys.write b.fd data') b

  unfoldable pub reset_input_buffer : Call (Posix K) (Unit {0})
  reset_input_buffer b = on_kernel (sys.tcflush_input b.fd) b

  unfoldable pub reset_output_buffer : Call (Posix K) (Unit {0})
  reset_output_buffer b = on_kernel (sys.tcflush_output b.fd) b

  unfoldable pub tcdrain_blocking : Call (Posix K) (Unit {0})
  tcdrain_blocking b = on_kernel (sys.tcdrain b.fd) b

  module _ (host : Platform) where
    unfoldable pub set_break : Bool → Call (Posix K) (Unit {0})
    set_break on b = on_kernel (Ioctl.set_break host.requests sys.ioctl b.fd on) b

    unfoldable pub modem_lines : Call (Posix K) ModemLines
    modem_lines b = on_kernel (Ioctl.get_modem_lines host.requests sys.ioctl b.fd) b

    unfoldable pub set_control_lines : Option Bool → Option Bool → Call (Posix K) (Unit {0})
    set_control_lines rts dtr b =
        on_kernel (Ioctl.set_control_lines host.requests sys.ioctl b.fd rts dtr) b

    unfoldable pub input_waiting : Call (Posix K) ℕ
    input_waiting b = on_kernel (Ioctl.input_waiting host.requests sys.ioctl b.fd) b

    unfoldable pub output_waiting : Call (Posix K) ℕ
    output_waiting b = on_kernel (Ioctl.output_waiting host.requests sys.ioctl b.fd) b

    -- `_apply_config_to_fd` of PosixBackend.
    unfoldable pub apply_config_to_fd : ℤ → SerialConfig → Call K (Unit {0})
    unfolding baudrate_to_speed
    apply_config_to_fd fd c = do
      current ← sys.tcgetattr fd
      speed ← lift (baudrate_to_speed host.speeds c.baudrate)
      attrs ← lift (build host.constants (record current { ispeed = speed; ospeed = speed }) c)
      sys.tcsetattr fd attrs

    abbrev pub posix_backend : SyncBackend (Posix K)
    posix_backend = record {
      path = λ b. b.path;
      is_open = is_open;
      open_port = open_port apply_config_to_fd;
      close = close;
      fileno = λ b. b.fd;
      read_nonblocking = read_nonblocking;
      write_nonblocking = write_nonblocking;
      configure = configure apply_config_to_fd;
      reset_input_buffer = reset_input_buffer;
      reset_output_buffer = reset_output_buffer;
      set_break = set_break;
      tcdrain_blocking = tcdrain_blocking;
      modem_lines = modem_lines;
      set_control_lines = set_control_lines;
      input_waiting = input_waiting;
      output_waiting = output_waiting;
    }
