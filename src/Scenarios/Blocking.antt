-- ===== src/Scenarios/Blocking.antt =====
-- The theorems about the blocking ports, on a world that counts the leases of each provider.
use anyserial.Base.{
  ℕ, ◌+◌, ◌-◌, ◌==◌, ◌<◌, ◌≡◌, refl, Bool, true, false, none, some, List, [], ◌∷◌, if◌then◌else◌,
  arith,
}
use anyserial.Errors.{Exn, Result, ok, raise}
use anyserial.Config.{default_config}
use anyserial.Stream.Port.{Reply}
use anyserial.Stream.Loop.{Op}
use anyserial.Sync.{
  Portals, Process, configure_portal, open_with, open_port, get_provider, chosen_config, method,
  release_portal, close, finalize,
}
use anyserial.Sync.Desk.{Command, act, act_all, fresh}
use anyserial.Sync.Leases.{one, CountsLeases}
use anyserial.Sync.Sharing.{IsShared}
use anyserial.Sync.Lifetime.{act_all-IsShared}
use anyserial.Sync.Start.{open_with_restartable}

-- The leases, the number of the next provider, and whether a portal can start.
record Loops : Type 0 where
  pub leases : ℕ → ℕ
  pub next : ℕ
  pub starts : Bool

abbrev entered : ℕ → Loops → Bool → Result ℕ × Loops
entered p w true = (ok p, record w { leases = λ q. w.leases q + one p q })
entered p w false = (raise Exn.runtime_error, w)

-- An asynchronous port is a number, its `aclose` times out, and a path named "missing" does not open.
abbrev loops : Portals Loops
loops = record {
  construct = λ b o w. (w.next, record w { next = w.next + 1 });
  enter = λ p w. entered p w (if w.leases p == 0 then w.starts else true);
  exit = λ p w. (ok tt, record w { leases = λ q. w.leases q - one p q });
  call_open = λ p c w. (ok 5, w);
  call_method = λ p c w. (raise Exn.runtime_error, w);
  call_direct = λ p op w. (ok (Reply.amount 0), w);
  async_is_open = λ p w. true;
  warn = λ w. (ok tt, w);
}

abbrev leases : Loops → ℕ → ℕ
leases w q = w.leases q

entered_adds :
    (p : ℕ) (w : Loops) (b : Bool) (k q : ℕ)
    → (entered p w b).0 ≡ ok k
    → leases (entered p w b).1 q ≡ leases w q + one p q
entered_adds p w true k q e = refl
entered_adds p w false k q e = absurd (cc)

entered_keeps :
    (p : ℕ) (w : Loops) (b : Bool) (e : Exn) (q : ℕ)
    → (entered p w b).0 ≡ raise e
    → leases (entered p w b).1 q ≡ leases w q
entered_keeps p w true e q f = absurd (cc)
entered_keeps p w false e q f = refl

first_only :
    (p : ℕ) (w : Loops) (e : Exn)
    → (entered p w (if w.leases p == 0 then w.starts else true)).0 ≡ raise e
    → w.leases p ≡ 0
first_only p w e h = ground arith

taken_off :
    (p : ℕ) (w : Loops) (q : ℕ) → 0 < w.leases p → (w.leases q - one p q) + one p q ≡ w.leases q
taken_off p w q h = ground arith

loops-CountsLeases : CountsLeases loops leases
loops-CountsLeases = record {
  constructs = λ b o w q. refl;
  enters = λ p w k q e. entered_adds p w _ k q e;
  unused = first_only;
  refuses = λ p w e q f. entered_keeps p w _ e q f;
  exits = taken_off;
  opening = λ p c w q. refl;
  running = λ p c w q. refl;
  asking = λ p op w q. refl;
  warning = λ w q. refl;
}

abbrev idle : Loops
idle = record { leases = λ q. 0; next = 0; starts = true }

-- Two ports; the first is closed twice, its `aclose` raising, and both are finalized.
abbrev session : List Command
session =
    Command.configuring "trio" none
    ∷ Command.opening "/dev/ttyUSB0" (some default_config) none none
    ∷ Command.opening "/dev/ttyUSB1" none none none
    ∷ Command.configuring "asyncio" none
    ∷ Command.closing 1 none
    ∷ Command.closing 1 none
    ∷ Command.running 0 Op.drain none
    ∷ []

one_left : (act_all loops session (fresh idle)).process.world.leases 0 ≡ 1
unfolding act_all act open_port open_with chosen_config get_provider configure_portal method close
    release_portal
one_left = refl

none_left :
    (act_all loops
        (Command.finalizing 0 ∷ [])
        (act_all loops session (fresh idle))).process.world.leases
      0
    ≡ 0
unfolding act_all act open_port open_with chosen_config get_provider configure_portal method close
    release_portal finalize
none_left = refl

act_all-IsShared_example :
    let d = act_all loops session (fresh idle) in IsShared leases d.process d.ports
act_all-IsShared_example = act_all-IsShared loops leases loops-CountsLeases session idle (λ q. refl)

abbrev broken : Process Loops
broken = record {
  provider = none;
  provider_backend = "uvloop";
  provider_options = [];
  world = record idle { starts = false };
}

open_with_restartable_example :
    let (r, after) = open_with loops "/dev/ttyUSB0" default_config none broken in
    (r ≡ raise Exn.runtime_error) × ((configure_portal "asyncio" none after).0 ≡ ok tt)
unfolding get_provider
open_with_restartable_example =
    open_with_restartable loops "/dev/ttyUSB0" default_config none broken Exn.runtime_error
      "asyncio" none refl
