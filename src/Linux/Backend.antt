-- ===== src/Linux/Backend.antt =====
-- src/anyserial/_linux/backend.py: `LinuxBackend`, over the POSIX backend.
pub mod Untouched
pub mod Session
pub mod Remembers
pub mod Restore
pub mod Lifetime
use anyserial.Base.{
  ℕ, zero, suc, Bool, true, false, String, Option, none, some, List, [], ◌∷◌, ℤ, take, map,
  if◌then◌else◌,
}
use anyserial.Bits.{◌&◌}
use anyserial.Types.{UnsupportedPolicy}
use anyserial.Errors.{
  Message, Exn, SerialClass, OsError, no_attributes, Result, ok, raise, is_os_error, is_exception,
}
use anyserial.Config.{SerialConfig, Rs485Config}
use anyserial.Backend.Protocol.{Call, SyncBackend}
use anyserial.Posix.Kernel.{
  Kernel, pure, raising, lift, resume_with, ◌>>=◌, ◌>>◌, handle, suppressed,
}
use anyserial.Posix.Termios.{ControlChar, TermiosAttrs, build}
use anyserial.Posix.Baudrate.{is_standard_baud}
use anyserial.Posix.Backend.{Posix, Platform, new_posix, is_open, posix_backend}
use anyserial.Posix.Backend
use anyserial.Linux.Kernel.{LinuxKernel}
use anyserial.Linux.Rs485.{Rs485State, with_flags_from, read_rs485, write_rs485}
use anyserial.Linux.Baudrate.{
  Termios2Attrs, nccs2, padded, mark_bother, read_termios2, write_termios2,
}
use anyserial.Linux.LowLatency
use anyserial.Linux.LowLatency.{
  FtdiLatencyTimer, restore_serial_flags, tune_ftdi_latency_timer, restore_ftdi_latency_timer,
}

-- The fields that the class adds to those of the POSIX backend.
pub record Linux (K : Type 0) : Type 0 where
  pub posix : Posix K
  pub saved_async_flags : Option ℤ
  pub ftdi_timer : Option FtdiLatencyTimer
  pub saved_rs485 : Option Rs485State

-- `__init__`
abbrev pub new_linux : {K : Type 0} → K → Linux K
new_linux k = record {
  posix = new_posix k;
  saved_async_flags = none;
  ftdi_timer = none;
  saved_rs485 = none;
}

-- One element of a `cc` tuple as a byte.
abbrev pub cc_byte : ControlChar → ℕ
cc_byte (ControlChar.bytes []) = 0
cc_byte (ControlChar.bytes (b ∷ bs)) = b
cc_byte (ControlChar.int n) = n & 255

-- `_cc_bytes`
unfoldable pub cc_bytes : List ControlChar → List ℕ
unfolding padded
cc_bytes cc = padded nccs2 (map cc_byte cc)

-- The attributes that an OSError has, also as a SerialError.
abbrev pub attributes : Exn → OsError
attributes (Exn.os_error e) = e
attributes (Exn.serial c e) = e
attributes _ = no_attributes

-- `UnsupportedFeatureError(exc.errno, msg, exc.filename)`
abbrev pub unsupported : String → Exn → Exn
unsupported feature e = Exn.serial SerialClass.unsupported_feature (record {
  errno = (attributes e).errno;
  strerror = some (Message.not_supported feature);
  filename = (attributes e).filename;
})

module _ {K : Type 0} where
  abbrev pub on_posix : {A : Type 0} → Call (Posix K) A → Call (Linux K) A
  on_posix f b = let (r, p) = f b.posix in (r, record b { posix = p })

  -- A call on the backend's kernel.
  abbrev pub on_sys : {A : Type 0} → Call K A → Call (Linux K) A
  on_sys f b =
      let (r, k) = f b.posix.kernel in (r, record b { posix = record b.posix { kernel = k } })

  -- An assignment to fields of the backend.
  abbrev pub assign : (Linux K → Linux K) → Call (Linux K) (Unit {0})
  assign put b = (ok tt, put b)

  -- A failed `open` after its `close`: the first exception goes on, unless the second is one
  -- that `suppress(Exception)` lets through.
  abbrev pub rolled_back : Exn → Result (Unit {0}) × Linux K → Result (Unit {0}) × Linux K
  rolled_back e (ok u, b) = (raise e, b)
  rolled_back e (raise f, b) = if is_exception f then (raise e, b) else (raise f, b)

-- The attributes that the shared builders work on, and the structure with what they made.
abbrev pub projected : Termios2Attrs → TermiosAttrs
projected current = record {
  iflag = current.iflag;
  oflag = current.oflag;
  cflag = current.cflag;
  lflag = current.lflag;
  ispeed = 0;
  ospeed = 0;
  cc = map ControlChar.int current.cc;
}

unfoldable pub grafted : Termios2Attrs → TermiosAttrs → ℕ → Termios2Attrs
unfolding mark_bother cc_bytes
grafted current attrs rate = record {
  iflag = attrs.iflag;
  oflag = attrs.oflag;
  cflag = mark_bother attrs.cflag;
  lflag = attrs.lflag;
  line = current.line;
  cc = cc_bytes attrs.cc;
  ispeed = rate;
  ospeed = rate;
}

-- `if self._saved_rs485 is None: self._saved_rs485 = current`
abbrev pub first_saved : Rs485State → Option Rs485State → Option Rs485State
first_saved current none = some current
first_saved current (some saved) = some saved

module _ {K : Type 0} (sys : LinuxKernel K) where
  -- `_handle_unsupported`
  unfoldable pub handle_unsupported : String → UnsupportedPolicy → Exn → Call K (Unit {0})
  handle_unsupported feature UnsupportedPolicy.raise e = raising (unsupported feature e)
  handle_unsupported feature UnsupportedPolicy.warn e = sys.posix.warn
  handle_unsupported feature UnsupportedPolicy.ignore e = pure tt

module _ {K : Type 0} (sys : LinuxKernel K) (host : Platform) (little : Bool) where
  unfoldable pub apply_custom_baud_config : ℤ → SerialConfig → Call K (Unit {0})
  unfolding grafted
  apply_custom_baud_config fd c = do
    current ← read_termios2 sys little fd
    attrs ← lift (build host.constants (projected current) c)
    write_termios2 sys little fd (grafted current attrs c.baudrate)

  unfoldable pub apply_config_to_fd : ℤ → SerialConfig → Call K (Unit {0})
  unfolding apply_custom_baud_config
  apply_config_to_fd fd c =
      if is_standard_baud host.speeds c.baudrate
      then Backend.apply_config_to_fd sys.posix host fd c
      else apply_custom_baud_config fd c

  -- `_enable_low_latency`: the flags of the driver, then the timer of the adapter.
  unfoldable pub enable_flags : UnsupportedPolicy → Call (Linux K) (Unit {0})
  unfolding handle_unsupported
  enable_flags policy b =
      handle is_os_error
        (λ e.
          on_sys (handle_unsupported sys "ASYNC_LOW_LATENCY" policy e)
          >> assign (λ c. record c { saved_async_flags = none }))
        ((on_sys (LowLatency.enable_low_latency sys b.posix.fd) >>= λ flags.
            assign (λ c. record c { saved_async_flags = some flags }))
          b)

  unfoldable pub tune_timer : UnsupportedPolicy → Call (Linux K) (Unit {0})
  unfolding handle_unsupported
  tune_timer policy b =
      handle is_os_error
        (λ e.
          on_sys (handle_unsupported sys "FTDI latency_timer" policy e)
          >> assign (λ c. record c { ftdi_timer = none }))
        ((on_sys (tune_ftdi_latency_timer sys b.posix.path) >>= λ timer.
            assign (λ c. record c { ftdi_timer = timer }))
          b)

  unfoldable pub enable_low_latency : UnsupportedPolicy → Call (Linux K) (Unit {0})
  unfolding enable_flags tune_timer
  enable_low_latency policy = enable_flags policy >> tune_timer policy

  -- `_restore_low_latency`: each original is forgotten before it is written back.
  unfoldable pub restore_flags : ℤ → Option ℤ → Call (Linux K) (Unit {0})
  restore_flags fd none b = pure tt b
  restore_flags fd (some flags) b =
      suppressed
        (on_sys (restore_serial_flags sys fd flags) (record b { saved_async_flags = none }))

  unfoldable pub restore_timer : Option FtdiLatencyTimer → Call (Linux K) (Unit {0})
  restore_timer none b = pure tt b
  restore_timer (some timer) b =
      suppressed (on_sys (restore_ftdi_latency_timer sys timer) (record b { ftdi_timer = none }))

  unfoldable pub restore_low_latency : ℤ → Call (Linux K) (Unit {0})
  unfolding restore_flags restore_timer
  restore_low_latency fd =
      (λ b. restore_flags fd b.saved_async_flags b) >> λ b. restore_timer b.ftdi_timer b

  -- `_apply_rs485`: the structure as it is, the copy kept on first use, and the merged one.
  unfoldable pub commit_rs485 :
      Rs485Config → UnsupportedPolicy → Rs485State → Call (Linux K) (Unit {0})
  unfolding handle_unsupported
  commit_rs485 c policy current b =
      (lift (with_flags_from sys.rounded_ms current c) >>= λ merged d.
      handle is_os_error (λ e. on_sys (handle_unsupported sys "TIOCSRS485" policy e))
        (on_sys (write_rs485 sys.ioctl_bytes little d.posix.fd merged) d))
        (record b { saved_rs485 = first_saved current b.saved_rs485 })

  -- What is done with the outcome of the first read.
  unfoldable pub apply_read :
      Rs485Config → UnsupportedPolicy → Result Rs485State × Linux K → Result (Unit {0}) × Linux K
  unfolding handle_unsupported commit_rs485
  apply_read c policy (ok current, b) = commit_rs485 c policy current b
  apply_read c policy (raise e, b) =
      if is_os_error e
      then on_sys (handle_unsupported sys "TIOCSRS485" policy e) b
      else (raise e, b)

  unfoldable pub apply_rs485 : Rs485Config → UnsupportedPolicy → Call (Linux K) (Unit {0})
  unfolding apply_read
  apply_rs485 c policy b =
      apply_read c policy (on_sys (read_rs485 sys.ioctl_bytes little b.posix.fd) b)

  -- `_restore_rs485`
  unfoldable pub restore_rs485 : ℤ → Option Rs485State → Call (Linux K) (Unit {0})
  restore_rs485 fd none b = pure tt b
  restore_rs485 fd (some saved) b =
      suppressed
        (on_sys (write_rs485 sys.ioctl_bytes little fd saved) (record b { saved_rs485 = none }))

  -- What `close` does for a descriptor before it gives it up.
  unfoldable pub restore_originals : ℤ → Call (Linux K) (Unit {0})
  unfolding restore_low_latency restore_rs485
  restore_originals fd = restore_low_latency fd >> λ b. restore_rs485 fd b.saved_rs485 b

  unfoldable pub close : Call (Linux K) (Unit {0})
  unfolding restore_originals
  close b =
      ((if is_open b.posix then restore_originals b.posix.fd else pure tt)
          >> on_posix (Backend.close sys.posix))
        b

  abbrev pub tuned_rs485 : Option Rs485Config → UnsupportedPolicy → Call (Linux K) (Unit {0})
  tuned_rs485 none policy = pure tt
  tuned_rs485 (some c) policy = apply_rs485 c policy

  -- The body of the `try` in `open`.
  unfoldable pub tune : SerialConfig → Call (Linux K) (Unit {0})
  unfolding enable_low_latency apply_rs485
  tune c =
      (if c.low_latency then enable_low_latency c.unsupported_policy else pure tt)
      >> tuned_rs485 c.rs485 c.unsupported_policy

  -- `except BaseException: with suppress(Exception): self.close()`
  abbrev pub or_roll_back : Result (Unit {0}) × Linux K → Result (Unit {0}) × Linux K
  or_roll_back (ok u, b) = (ok u, b)
  or_roll_back (raise e, b) = rolled_back e (close b)

  unfoldable pub open_port : String → SerialConfig → Call (Linux K) (Unit {0})
  unfolding tune close
  open_port path c = on_posix (Backend.open_port sys.posix apply_config_to_fd path c) >> λ b.
      or_roll_back (tune c b)

  -- What `configure` does after the termios update.
  unfoldable pub reconfigure_rs485 :
      Option Rs485Config → UnsupportedPolicy → Option Rs485State → Call (Linux K) (Unit {0})
  unfolding apply_rs485
  reconfigure_rs485 (some c) policy saved = apply_rs485 c policy
  reconfigure_rs485 none policy none = pure tt
  reconfigure_rs485 none policy (some saved) =
      (λ b. suppressed (on_sys (write_rs485 sys.ioctl_bytes little b.posix.fd saved) b))
      >> assign (λ b. record b { saved_rs485 = none })

  unfoldable pub configure : SerialConfig → Call (Linux K) (Unit {0})
  unfolding reconfigure_rs485
  configure c = on_posix (Backend.configure sys.posix apply_config_to_fd c) >> λ b.
      reconfigure_rs485 c.rs485 c.unsupported_policy b.saved_rs485 b
