-- ===== src/Sync/Desk.antt =====
-- The blocking ports of a process, and what is called on them, one call after the other.
use anyserial.Base.{ℕ, zero, suc, String, Option, none, some, List, [], ◌∷◌}
use anyserial.Errors.{Result, ok, raise}
use anyserial.Config.{SerialConfig, Changes, Seconds}
use anyserial.Stream.Loop.{Op}
use anyserial.Sync.{
  Portals, Process, SyncPort, Options, configure_portal, open_port, method, snapshot, close,
  finalize,
}

-- The ports that were opened, the latest first; a port that was closed stays.
pub record Desk (W : Type 0) : Type 0 where
  pub process : Process W
  pub ports : List SyncPort

-- A number says which port.
pub data Command : Type 0 where
  configuring : String → Option Options → Command
  opening : String → Option SerialConfig → Option Changes → Option Seconds → Command
  running : ℕ → Op → Option Seconds → Command
  asking : ℕ → Op → Command
  closing : ℕ → Option Seconds → Command
  finalizing : ℕ → Command

-- The port of that number.
abbrev pub nth : List SyncPort → ℕ → Option SyncPort
nth [] n = none
nth (p ∷ ps) zero = some p
nth (p ∷ ps) (suc n) = nth ps n

abbrev pub put : List SyncPort → ℕ → SyncPort → List SyncPort
put [] n q = []
put (p ∷ ps) zero q = q ∷ ps
put (p ∷ ps) (suc n) q = p ∷ put ps n q

module _ {W : Type 0} where
  abbrev pub opened : List SyncPort → Result SyncPort × Process W → Desk W
  opened ps (ok p, s) = record { process = s; ports = p ∷ ps }
  opened ps (raise e, s) = record { process = s; ports = ps }

  -- A call on one port: it may change the port and the process.
  abbrev pub at_port :
      (SyncPort → Process W → SyncPort × Process W) → ℕ → Option SyncPort → Desk W → Desk W
  at_port f n none d = d
  at_port f n (some p) d =
      let (p', s) = f p d.process in record { process = s; ports = put d.ports n p' }

  -- The globals as the module sets them, and no port.
  abbrev pub fresh : W → Desk W
  fresh w = record {
    process = record {
      provider = none;
      provider_backend = "asyncio";
      provider_options = [];
      world = w;
    };
    ports = [];
  }

  module _ (portals : Portals W) where
    unfoldable pub act : Command → Desk W → Desk W
    unfolding configure_portal open_port method snapshot close finalize
    act (Command.configuring backend options) d = record d {
      process = (configure_portal backend options d.process).1;
    }
    act (Command.opening path config fields timeout) d =
        opened d.ports (open_port portals path config fields timeout d.process)
    act (Command.running n op timeout) d =
        at_port (λ p s. (p, (method portals op timeout p s).1)) n (nth d.ports n) d
    act (Command.asking n op) d =
        at_port (λ p s. (p, (snapshot portals op p s).1)) n (nth d.ports n) d
    act (Command.closing n timeout) d =
        at_port (λ p s. (let (r, p', s') = close portals timeout p s in (p', s'))) n (nth d.ports n)
          d
    act (Command.finalizing n) d = at_port (finalize portals) n (nth d.ports n) d

    unfoldable pub act_all : List Command → Desk W → Desk W
    unfolding act
    act_all [] d = d
    act_all (c ∷ cs) d = act_all cs (act c d)
