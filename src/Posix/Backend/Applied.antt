-- ===== src/Posix/Backend/Applied.antt =====
-- What applying a configuration leaves as it was.
use anyserial.Base.{ℤ, refl}
use anyserial.Config.{SerialConfig}
use anyserial.Posix.Termios.{TermiosAttrs}
use anyserial.Posix.Kernel.{Kernel}
use anyserial.Posix.Kernel.Rules.{Keeps, bind-Keeps}
use anyserial.Posix.Backend.{Platform, apply_config_to_fd}

pub apply_config_to_fd-Keeps :
    {K V : Type 0} (sys : Kernel K) (view : K → V) (host : Platform)
    → ((fd : ℤ) → Keeps view (sys.tcgetattr fd))
    → ((fd : ℤ) (a : TermiosAttrs) → Keeps view (sys.tcsetattr fd a))
    → (fd : ℤ) (c : SerialConfig) → Keeps view (apply_config_to_fd sys host fd c)
unfolding apply_config_to_fd
apply_config_to_fd-Keeps sys view host getting setting fd c =
    bind-Keeps view _ _ (getting fd) (λ current.
      bind-Keeps view _ _ (λ k. refl)
        (λ speed. bind-Keeps view _ _ (λ k. refl) (λ attrs. setting fd attrs)))
