-- ===== src/Opening/Released.antt =====
-- `open_serial_port` on macOS: the descriptors of the process, from the opening to the closing.
use anyserial.Base.{ℕ, ◌≡◌, refl, false, String, Option, none, some, List, ℤ}
use anyserial.Errors.{Result, ok, raise}
use anyserial.Config.{SerialConfig, Rs485Config}
use anyserial.Backend.Protocol.{Call, SyncBackend}
use anyserial.Posix.Kernel.{Kernel}
use anyserial.Posix.Kernel.Rules.{Keeps, then-Keeps, bind-Keeps, if-Keeps}
use anyserial.Posix.Termios.{TermiosAttrs}
use anyserial.Posix.Backend.{Posix, Platform, is_open}
use anyserial.Posix.Backend.Applied.{apply_config_to_fd-Keeps}
use anyserial.Posix.Backend.Descriptors.{TracksDescriptors, Owns}
use anyserial.Stream.Port.{Port}
use anyserial.Selection.{select_backend, platform_of}
use anyserial.Selection
use anyserial.Types.{UnsupportedPolicy}
use anyserial.Darwin
use anyserial.Posix.Baudrate.{is_standard_baud}
use anyserial.Darwin.Baudrate.{set_iossiospeed}
use anyserial.Opening.{
  Resolver, OpenPort, open_sync, SerialBackend, SerialPort, as_port, open_serial_port,
}
use anyserial.Opening.Closed.{RaisesOsErrors, ClosesTo, Unharmed, Ended, open_sync-Ended}

module _ {K : Type 0} (sys : Kernel K) (descriptors : K → List ℕ) where
  -- The calls that configure a descriptor, and a warning, open and close none.
  pub record LeavesDescriptors (ioctl_bytes : ℤ → ℕ → List ℕ → Call K (List ℕ)) : Type 0 where
    pub gets : (fd : ℤ) → Keeps descriptors (sys.tcgetattr fd)
    pub sets : (fd : ℤ) (a : TermiosAttrs) → Keeps descriptors (sys.tcsetattr fd a)
    pub warns : Keeps descriptors sys.warn
    pub speeds :
        (fd : ℤ) (req : ℕ) (payload : List ℕ) → Keeps descriptors (ioctl_bytes fd req payload)

  module _ (host : Platform) (ioctl_bytes : ℤ → ℕ → List ℕ → Call K (List ℕ))
      (placeholder_speed : ℕ) (leaves : LeavesDescriptors ioctl_bytes) where
    reject_feature-Keeps :
        (policy : UnsupportedPolicy) → Keeps descriptors (Darwin.reject_feature sys policy)
    unfolding Darwin.reject_feature
    reject_feature-Keeps UnsupportedPolicy.raise k = refl
    reject_feature-Keeps UnsupportedPolicy.warn k = leaves.warns k
    reject_feature-Keeps UnsupportedPolicy.ignore k = refl

    reject_rs485-Keeps :
        (r : Option Rs485Config) (policy : UnsupportedPolicy)
        → Keeps descriptors (Darwin.reject_rs485 sys r policy)
    reject_rs485-Keeps none policy k = refl
    reject_rs485-Keeps (some r) policy k = reject_feature-Keeps policy k

    reject-Keeps : (c : SerialConfig) → Keeps descriptors (Darwin.reject_darwin_unsupported sys c)
    unfolding Darwin.reject_darwin_unsupported
    reject-Keeps c = then-Keeps descriptors _ _ (reject_rs485-Keeps c.rs485 c.unsupported_policy) (
        if-Keeps descriptors c.low_latency _ _ (reject_feature-Keeps c.unsupported_policy)
          (λ k. refl))

    set_iossiospeed-Keeps :
        (fd : ℤ) (rate : ℕ) → Keeps descriptors (set_iossiospeed ioctl_bytes fd rate)
    unfolding set_iossiospeed
    set_iossiospeed-Keeps fd rate =
        bind-Keeps descriptors _ _ (λ k. refl)
          (λ payload. then-Keeps descriptors _ _ (leaves.speeds fd _ payload) (λ k. refl))

    apply-Keeps :
        (fd : ℤ) (c : SerialConfig)
        → Keeps descriptors (Darwin.apply_config_to_fd sys host ioctl_bytes placeholder_speed fd c)
    unfolding Darwin.apply_config_to_fd Darwin.apply_custom_baud_config
    apply-Keeps fd c =
        if-Keeps descriptors (is_standard_baud host.speeds c.baudrate) _ _
          (apply_config_to_fd-Keeps sys descriptors host leaves.gets leaves.sets fd c)
          (bind-Keeps descriptors _ _ (leaves.gets fd) (λ current.
            bind-Keeps descriptors _ _ (λ k. refl)
              (λ attrs.
                bind-Keeps descriptors _ _ (leaves.sets fd attrs)
                  (λ _. set_iossiospeed-Keeps fd c.baudrate))))

    abbrev backend : SyncBackend (Posix K)
    backend = Darwin.darwin_backend sys host ioctl_bytes placeholder_speed

    abbrev pub Released : List ℕ → Result (OpenPort (SerialPort (Posix K))) × Posix K → Type 0
    Released others (raise e, b) = Unharmed descriptors others e b
    Released others (ok o, b) =
        (p : Port (Posix K)) × (o.port ≡ SerialPort.posix p) × ClosesTo descriptors others backend p

    released :
        (others : List ℕ) (x : Result (OpenPort (Port (Posix K))) × Posix K)
        → Ended descriptors others backend x
        → Released others (as_port SerialPort.posix x)
    released others (ok o, b) h = (o.port, refl, h)
    released others (raise e, b) h = h

    -- On macOS, where opening, closing and locking a descriptor act as documented and no other call
    -- opens or closes one, with a lookup of metadata that raises nothing but an OSError: where
    -- `open_serial_port` raises, the process has exactly the descriptors `others` that it had, and
    -- the exception is no OSError but a SerialError or of another class; where it returns, it
    -- returns a POSIX port, and an `aclose` of that port that gets its turn at the lock with nothing
    -- else under way leaves exactly `others`, whatever is called or resumed later.
    pub open_serial_port-Released :
        (law : TracksDescriptors sys descriptors)
        (instances : Selection.Platform → SerialBackend (Posix K)) (others : List ℕ)
        (resolver : Resolver) (path : String) (config : Option SerialConfig) (b : Posix K)
        → instances Selection.Platform.darwin ≡ SerialBackend.sync backend
        → RaisesOsErrors resolver
        → is_open b ≡ false
        → Owns sys descriptors others b
        → Released others (open_serial_port "darwin" instances resolver path config b)
    unfolding open_serial_port select_backend platform_of Darwin.open_port
    open_serial_port-Released law instances others resolver path config b s h q o = rw s (
        released others (open_sync backend resolver path config b) (
          open_sync-Ended sys descriptors law backend
            (Darwin.apply_config_to_fd sys host ioctl_bytes placeholder_speed)
            (Darwin.reject_darwin_unsupported sys) refl refl apply-Keeps reject-Keeps others
            resolver path config b h q o))
