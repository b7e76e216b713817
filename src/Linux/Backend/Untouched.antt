-- ===== src/Linux/Backend/Untouched.antt =====
-- What the calls of the Linux backend that have nothing to do with RS-485 leave as it was.
use anyserial.Base.{ℕ, refl, Bool, String, List, ℤ}
use anyserial.Types.{UnsupportedPolicy}
use anyserial.Errors.{Exn}
use anyserial.Config.{SerialConfig}
use anyserial.Posix.Kernel.Rules.{Keeps, bind-Keeps, then-Keeps, if-Keeps}
use anyserial.Posix.Termios.{TermiosAttrs}
use anyserial.Posix.Baudrate.{is_standard_baud}
use anyserial.Posix.Backend.{Platform}
use anyserial.Posix.Backend.Applied
use anyserial.Linux.Kernel.{LinuxKernel}
use anyserial.Linux.Baudrate.{tcgets2, tcsets2, read_termios2, write_termios2}
use anyserial.Linux.Backend.{handle_unsupported, apply_custom_baud_config, apply_config_to_fd}

module _ {K V : Type 0} (sys : LinuxKernel K) (view : K → V) where
  -- None of the calls that a session without low latency makes changes what the view shows.
  pub record Untouched : Type 0 where
    pub opening : (path : String) → Keeps view (sys.posix.open_device path)
    pub closing : (fd : ℤ) → Keeps view (sys.posix.close fd)
    pub locking : (fd : ℤ) → Keeps view (sys.posix.flock fd)
    pub getting : (fd : ℤ) → Keeps view (sys.posix.tcgetattr fd)
    pub setting : (fd : ℤ) (a : TermiosAttrs) → Keeps view (sys.posix.tcsetattr fd a)
    pub warning : Keeps view sys.posix.warn
    pub getting2 : (fd : ℤ) (buf : List ℕ) → Keeps view (sys.ioctl_bytes fd tcgets2 buf)
    pub setting2 : (fd : ℤ) (buf : List ℕ) → Keeps view (sys.ioctl_bytes fd tcsets2 buf)

  module _ (law : Untouched) where
    pub handle_unsupported-Keeps :
        (feature : String) (policy : UnsupportedPolicy) (e : Exn)
        → Keeps view (handle_unsupported sys feature policy e)
    unfolding handle_unsupported
    handle_unsupported-Keeps feature UnsupportedPolicy.raise e k = refl
    handle_unsupported-Keeps feature UnsupportedPolicy.warn e k = law.warning k
    handle_unsupported-Keeps feature UnsupportedPolicy.ignore e k = refl

    module _ (host : Platform) (little : Bool) where
      custom-Keeps :
          (fd : ℤ) (c : SerialConfig) → Keeps view (apply_custom_baud_config sys host little fd c)
      unfolding apply_custom_baud_config read_termios2 write_termios2
      custom-Keeps fd c =
          bind-Keeps view _ _ (bind-Keeps view _ _ (law.getting2 fd _) (λ buf k. refl)) (λ current.
            bind-Keeps view _ _ (λ k. refl)
              (λ attrs.
                bind-Keeps view _ _ (λ k. refl)
                  (λ payload. then-Keeps view _ _ (law.setting2 fd payload) (λ k. refl))))

      pub apply_config_to_fd-Keeps :
          (fd : ℤ) (c : SerialConfig) → Keeps view (apply_config_to_fd sys host little fd c)
      unfolding apply_config_to_fd
      apply_config_to_fd-Keeps fd c =
          if-Keeps view (is_standard_baud host.speeds c.baudrate) _ _
            (Applied.apply_config_to_fd-Keeps sys.posix view host law.getting law.setting fd c)
            (custom-Keeps fd c)
