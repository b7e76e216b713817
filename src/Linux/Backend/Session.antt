-- ===== src/Linux/Backend/Session.antt =====
-- A backend's life: `open`, calls of `configure` whose errors the caller catches, and `close`.
use anyserial.Base.{Bool, String, List, [], ◌∷◌}
use anyserial.Errors.{Result, ok, raise}
use anyserial.Config.{SerialConfig}
use anyserial.Posix.Backend.{Platform}
use anyserial.Linux.Kernel.{LinuxKernel}
use anyserial.Linux.Backend.{Linux, new_linux, open_port, configure, close}

module _ {K : Type 0} (sys : LinuxKernel K) (host : Platform) (little : Bool) where
  unfoldable pub reconfigured : List SerialConfig → Linux K → Linux K
  reconfigured [] b = b
  reconfigured (c ∷ cs) b = reconfigured cs (configure sys host little c b).1

  -- A failed `open` ends it.
  abbrev pub after_open : List SerialConfig → Result (Unit {0}) × Linux K → Linux K
  after_open cs (ok u, b) = (close sys host little (reconfigured cs b)).1
  after_open cs (raise e, b) = b

  unfoldable pub session : String → SerialConfig → List SerialConfig → K → Linux K
  session path c cs k = after_open cs (open_port sys host little path c (new_linux k))
