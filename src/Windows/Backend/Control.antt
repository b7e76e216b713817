-- ===== src/Windows/Backend/Control.antt =====
-- src/anyserial/_windows/backend.py: what `WindowsBackend` does beside the opening, the closing and
-- the bytes.
use anyserial.Base.{ℕ, Bool, true, false, Option, none, some}
use anyserial.Bits.{◌¦◌}
use anyserial.Types.{ModemLines, CommEvent}
use anyserial.Errors.{Context, Result, ok, raise}
use anyserial.Config.{SerialConfig, Seconds}
use anyserial.Backend.Protocol.{Call}
use anyserial.Posix.Kernel.{pure, ◌>>=◌, ◌>>◌, suppressed}
use anyserial.Posix.Ioctl.{has}
use anyserial.Windows.Errors.{WinErrors}
use anyserial.Windows.Kernel32.{Kernel32}
use anyserial.Windows.Backend.{Windows, on_kernel, unless_closed, mapped, apply_dcb}

module _ {K : Type 0} (sys : Kernel32 K) (host : WinErrors) where
  unfoldable pub configure : SerialConfig → Call (Windows K) (Unit {0})
  unfolding apply_dcb
  configure c = unless_closed (λ b.
      (on_kernel (mapped sys host Context.ioctl b.path (apply_dcb sys host b.handle c)) >> λ d.
      (ok tt, record d { config = some c }))
        b)

  unfoldable pub reset_input_buffer : Call (Windows K) (Unit {0})
  reset_input_buffer =
      unless_closed
        (λ b. on_kernel (mapped sys host Context.ioctl b.path (sys.purge_comm b.handle (8 ¦ 2))) b)

  unfoldable pub reset_output_buffer : Call (Windows K) (Unit {0})
  reset_output_buffer =
      unless_closed
        (λ b. on_kernel (mapped sys host Context.ioctl b.path (sys.purge_comm b.handle (4 ¦ 1))) b)

  unfoldable pub drain : Call (Windows K) (Unit {0})
  drain =
      unless_closed
        (λ b. on_kernel (mapped sys host Context.io b.path (sys.flush_file_buffers b.handle)) b)

  -- `finally: with suppress(OSError): ClearCommBreak`: the outcome of the sleep stands, unless
  -- another exception takes its place.
  abbrev pub then_clear : Result (Unit {0}) → Result (Unit {0}) × K → Result (Unit {0}) × K
  then_clear slept (ok u, k) = (slept, k)
  then_clear slept (raise e, k) = (raise e, k)

  unfoldable pub hold_break : ℕ → Seconds → Call K (Unit {0})
  hold_break h d k =
      let (slept, k') = sys.sleep d k in then_clear slept (suppressed (sys.clear_comm_break h k'))

  unfoldable pub send_break : Seconds → Call (Windows K) (Unit {0})
  unfolding hold_break
  send_break d = unless_closed (λ b.
      on_kernel
        (mapped sys host Context.ioctl b.path (sys.set_comm_break b.handle)
          >> hold_break b.handle d)
        b)

  unfoldable pub modem_lines : Call (Windows K) ModemLines
  modem_lines = unless_closed (λ b.
      on_kernel
        (mapped sys host Context.ioctl b.path (sys.get_comm_modem_status b.handle) >>= λ status.
          pure (record {
            cts = has status 16;
            dsr = has status 32;
            ri = has status 64;
            cd = has status 128;
          }))
        b)

  -- `if rts is not None: EscapeCommFunction(…)`
  abbrev pub escape : ℕ → ℕ → ℕ → Option Bool → Call K (Unit {0})
  escape h on off none = pure tt
  escape h on off (some true) = sys.escape_comm_function h on
  escape h on off (some false) = sys.escape_comm_function h off

  unfoldable pub set_control_lines : Option Bool → Option Bool → Call (Windows K) (Unit {0})
  set_control_lines rts dtr = unless_closed (λ b.
      on_kernel
        (mapped sys host Context.ioctl b.path (escape b.handle 3 4 rts >> escape b.handle 5 6 dtr))
        b)

  unfoldable pub wait_modem_event : Call (Windows K) CommEvent
  wait_modem_event = unless_closed (λ b.
      on_kernel
        (mapped sys host Context.ioctl b.path (sys.wait_comm_event b.handle) >>= λ mask.
          pure (record {
            cts_changed = has mask 8;
            dsr_changed = has mask 16;
            rlsd_changed = has mask 32;
            ring = has mask 256;
            error = has mask 128;
            break_received = has mask 64;
          }))
        b)

  -- `_comstat`
  unfoldable pub comstat : Call (Windows K) (ℕ × ℕ)
  comstat =
      unless_closed
        (λ b. on_kernel (mapped sys host Context.ioctl b.path (sys.clear_comm_error b.handle)) b)

  unfoldable pub input_waiting : Call (Windows K) ℕ
  unfolding comstat
  input_waiting = comstat >>= λ s. pure s.0

  unfoldable pub output_waiting : Call (Windows K) ℕ
  unfolding comstat
  output_waiting = comstat >>= λ s. pure s.1
