-- ===== src/Darwin.antt =====
-- src/anyserial/_darwin/backend.py: `DarwinBackend`, over the POSIX backend.
pub mod Client
pub mod Baudrate
pub mod Rejection
pub mod Discovery
use anyserial.Base.{ℕ, Bool, true, false, String, Option, none, some, List, ℤ, if◌then◌else◌}
use anyserial.Types.{UnsupportedPolicy}
use anyserial.Errors.{Exn, SerialClass, no_attributes, Result, ok, raise}
use anyserial.Config.{SerialConfig, Rs485Config}
use anyserial.Backend.Protocol.{Call, SyncBackend}
use anyserial.Posix.Kernel.{Kernel, pure, raising, lift, resume_with, ◌>>=◌, ◌>>◌}
use anyserial.Posix.Termios.{build}
use anyserial.Posix.Baudrate.{is_standard_baud}
use anyserial.Posix.Backend.{Posix, Platform, on_kernel}
use anyserial.Posix.Backend
use anyserial.Darwin.Baudrate.{set_iossiospeed}

-- `UnsupportedFeatureError(msg)`, whose one argument names the feature.
abbrev pub unsupported : Exn
unsupported = Exn.serial SerialClass.unsupported_feature no_attributes

module _ {K : Type 0} (sys : Kernel K) where
  -- `_reject_feature`
  unfoldable pub reject_feature : UnsupportedPolicy → Call K (Unit {0})
  reject_feature UnsupportedPolicy.raise = raising unsupported
  reject_feature UnsupportedPolicy.warn = sys.warn
  reject_feature UnsupportedPolicy.ignore = pure tt

  -- `if config.rs485 is not None`
  abbrev pub reject_rs485 : Option Rs485Config → UnsupportedPolicy → Call K (Unit {0})
  reject_rs485 none policy = pure tt
  reject_rs485 (some c) policy = reject_feature policy

  unfoldable pub reject_darwin_unsupported : SerialConfig → Call K (Unit {0})
  unfolding reject_feature
  reject_darwin_unsupported c =
      reject_rs485 c.rs485 c.unsupported_policy
      >> (if c.low_latency then reject_feature c.unsupported_policy else pure tt)

  module _ (host : Platform) (ioctl_bytes : ℤ → ℕ → List ℕ → Call K (List ℕ))
      (placeholder_speed : ℕ) where
    -- The rate goes to the driver after everything else, over a placeholder.
    unfoldable pub apply_custom_baud_config : ℤ → SerialConfig → Call K (Unit {0})
    unfolding set_iossiospeed
    apply_custom_baud_config fd c = do
      current ← sys.tcgetattr fd
      attrs ← lift (
          build host.constants
            (record current { ispeed = placeholder_speed; ospeed = placeholder_speed }) c)
      done ← sys.tcsetattr fd attrs
      set_iossiospeed ioctl_bytes fd c.baudrate

    -- `_apply_config_to_fd`
    unfoldable pub apply_config_to_fd : ℤ → SerialConfig → Call K (Unit {0})
    unfolding apply_custom_baud_config
    apply_config_to_fd fd c =
        if is_standard_baud host.speeds c.baudrate
        then Backend.apply_config_to_fd sys host fd c
        else apply_custom_baud_config fd c

    unfoldable pub open_port : String → SerialConfig → Call (Posix K) (Unit {0})
    unfolding reject_darwin_unsupported
    open_port path c =
        on_kernel (reject_darwin_unsupported c) >> Backend.open_port sys apply_config_to_fd path c

    unfoldable pub configure : SerialConfig → Call (Posix K) (Unit {0})
    unfolding reject_darwin_unsupported
    configure c =
        on_kernel (reject_darwin_unsupported c) >> Backend.configure sys apply_config_to_fd c

    -- `DarwinBackend`: the POSIX backend, with its own `open` and `configure`.
    abbrev pub darwin_backend : SyncBackend (Posix K)
    darwin_backend = record (Backend.posix_backend sys host) {
      open_port = open_port;
      configure = configure;
    }
