-- ===== src/Sync.antt =====
-- src/anyserial/sync.py: the blocking port, and the portal provider that all of them share.
pub mod Desk
pub mod Leases
pub mod Sharing
pub mod Lifetime
pub mod Start
use anyserial.Base.{
  ℕ, ◌==◌, Bool, true, false, ◌&&◌, not, String, Option, none, some, List, [], ◌∷◌, if◌then◌else◌,
}
use anyserial.Errors.{Exn, Result, ok, raise, is_exception}
use anyserial.Config.{SerialConfig, Changes, Seconds, serial_config, default_config}
use anyserial.Backend.Protocol.{Call}
use anyserial.Posix.Kernel.{resume_with}
use anyserial.Stream.Port.{Reply}
use anyserial.Stream.Loop.{Op}

-- What a portal runs: a coroutine function on its arguments, as it is or under `anyio.fail_after`.
pub data Bounded (A : Type 0) : Type 0 where
  at_once : A → Bounded A
  fail_after : Seconds → A → Bounded A

abbrev pub Options : Type 0
Options = List (String × String)

-- anyio's portals, on a world `W` with the event loop's thread and the asynchronous ports: a
-- provider, a portal and an asynchronous port go by number.
pub record Portals (W : Type 0) : Type 0 where
  -- `BlockingPortalProvider(backend=…, backend_options=…)`
  pub construct : String → Option Options → W → ℕ × W
  -- `__enter__`, which answers a portal, and `__exit__`
  pub enter : ℕ → Call W ℕ
  pub exit : ℕ → Call W (Unit {0})
  -- `portal.call` of the asynchronous `open_serial_port`, and of a method of an asynchronous port
  pub call_open : ℕ → Bounded (String × SerialConfig) → Call W ℕ
  pub call_method : ℕ → Bounded (ℕ × Op) → Call W Reply
  -- a method that is no coroutine, called in place
  pub call_direct : ℕ → Op → Call W Reply
  pub async_is_open : ℕ → W → Bool
  -- `warnings.warn(…, ResourceWarning)`
  pub warn : Call W (Unit {0})

-- The globals of the module, and the world.
pub record Process (W : Type 0) : Type 0 where
  pub provider : Option ℕ
  pub provider_backend : String
  pub provider_options : Options
  pub world : W

pub record SyncPort : Type 0 where
  pub async_port : ℕ
  pub portal : ℕ
  pub provider : ℕ
  pub portal_entered : Bool
  pub closed : Bool

-- `__init__`
abbrev pub new_sync_port : ℕ → ℕ → ℕ → SyncPort
new_sync_port async_port portal provider = record {
  async_port = async_port;
  portal = portal;
  provider = provider;
  portal_entered = true;
  closed = false;
}

-- `_call_with_timeout`, up to the call of the portal.
abbrev pub bounded : {A : Type 0} → Option Seconds → A → Bounded A
bounded none call = at_once call
bounded (some timeout) call = fail_after timeout call

-- `dict(backend_options) if backend_options else {}`
abbrev pub or_empty : Option Options → Options
or_empty none = []
or_empty (some options) = options

-- `_provider_options or None`
abbrev pub or_none : Options → Option Options
or_none [] = none
or_none (o ∷ options) = some (o ∷ options)

-- The configuration that `open` uses: the one given, or one of the keyword fields.
unfoldable pub chosen_config : Option SerialConfig → Option Changes → Result SerialConfig
chosen_config (some config) (some fields) = raise Exn.value_error
chosen_config (some config) none = ok config
chosen_config none (some fields) = serial_config fields
chosen_config none none = ok default_config

-- `with contextlib.suppress(Exception)`
abbrev pub suppressed_exception :
    {W : Type 0}
    → SyncPort
    → Result (Unit {0}) × Process W
    → Result (Unit {0}) × SyncPort × Process W
suppressed_exception p (ok u, s) = (ok u, p, s)
suppressed_exception p (raise e, s) = if is_exception e then (ok tt, p, s) else (raise e, p, s)

module _ {W : Type 0} where
  abbrev pub on_world : {A : Type 0} → Call W A → Call (Process W) A
  on_world call s = let (r, w) = call s.world in (r, record s { world = w })

  abbrev configured : String → Option Options → Option ℕ → Call (Process W) (Unit {0})
  configured backend options (some q) s = (raise Exn.runtime_error, s)
  configured backend options none s =
      (ok tt, record s { provider_backend = backend; provider_options = or_empty options })

  unfoldable pub configure_portal : String → Option Options → Call (Process W) (Unit {0})
  configure_portal backend options s = configured backend options s.provider s

  abbrev pub discarded : ℕ → Option ℕ → Process W → Process W
  discarded q none s = s
  discarded q (some cached) s = if cached == q then record s { provider = none } else s

  unfoldable pub discard_provider : ℕ → Process W → Process W
  discard_provider q s = discarded q s.provider s

  -- `_reset_portal_for_testing`
  abbrev pub reset_portal : Process W → Process W
  reset_portal s = record s { provider = none }

  module _ (portals : Portals W) where
    -- The provider that is cached, or a new one.
    abbrev pub cached_or_new : Option ℕ → Process W → ℕ × Process W
    cached_or_new (some q) s = (q, s)
    cached_or_new none s =
        let (q, w) = portals.construct s.provider_backend (or_none s.provider_options) s.world in
        (q, record s { provider = some q; world = w })

    unfoldable pub get_provider : Process W → ℕ × Process W
    get_provider s = cached_or_new s.provider s

    -- `except BaseException: provider.__exit__(…); raise`
    abbrev pub or_exit : ℕ → ℕ → Result ℕ × Process W → Result SyncPort × Process W
    or_exit q portal (ok async_port, s) = (ok (new_sync_port async_port portal q), s)
    or_exit q portal (raise e, s) =
        resume_with (λ u s'. (raise e, s')) (on_world (portals.exit q) s)

    -- `except BaseException: _discard_provider(provider); raise`, or the open on the portal.
    abbrev pub or_discard :
        Option Seconds
        → String
        → SerialConfig
        → ℕ
        → Result ℕ × Process W
        → Result SyncPort × Process W
    or_discard timeout path config q (raise e, s) = (raise e, discard_provider q s)
    or_discard timeout path config q (ok portal, s) =
        or_exit q portal (on_world (portals.call_open portal (bounded timeout (path, config))) s)

    -- `open`, with the configuration chosen.
    unfoldable pub open_with : String → SerialConfig → Option Seconds → Call (Process W) SyncPort
    unfolding get_provider discard_provider
    open_with path config timeout s =
        let (q, s') = get_provider s in
        or_discard timeout path config q (on_world (portals.enter q) s')

    unfoldable pub open_port :
        String → Option SerialConfig → Option Changes → Option Seconds → Call (Process W) SyncPort
    unfolding chosen_config open_with
    open_port path config fields timeout s =
        resume_with (λ c. open_with path c timeout) (chosen_config config fields, s)

    unfoldable pub is_open : SyncPort → Process W → Bool
    is_open p s = not p.closed && portals.async_is_open p.async_port s.world

    -- `_run` of a method of the asynchronous port.
    unfoldable pub method : Op → Option Seconds → SyncPort → Call (Process W) Reply
    method op timeout p =
        on_world (portals.call_method p.portal (bounded timeout (p.async_port, op)))

    -- `input_waiting` and `output_waiting`
    unfoldable pub snapshot : Op → SyncPort → Call (Process W) Reply
    snapshot op p = on_world (portals.call_direct p.async_port op)

    -- `_release_portal`: the port gives its reference back, once.
    unfoldable pub release_portal : SyncPort → Process W → Result (Unit {0}) × SyncPort × Process W
    release_portal p s =
        if p.portal_entered
        then suppressed_exception (record p { portal_entered = false })
            (on_world (portals.exit p.provider) s)
        else (ok tt, p, s)

    -- The `finally` of `close`: what `aclose` did stands, unless the release raises.
    abbrev pub after_release :
        Result Reply
        → Result (Unit {0}) × SyncPort × Process W
        → Result (Unit {0}) × SyncPort × Process W
    after_release (ok reply) x = x
    after_release (raise e) (ok u, p, s) = (raise e, p, s)
    after_release (raise e) (raise f, p, s) = (raise f, p, s)

    unfoldable pub close :
        Option Seconds → SyncPort → Process W → Result (Unit {0}) × SyncPort × Process W
    unfolding method release_portal
    close timeout p s =
        if p.closed
        then (ok tt, p, s)
        else (let (r, s') = method Op.close timeout p s in
            after_release r (release_portal (record p { closed = true }) s'))

    -- `__del__`: the warning, and if it does not raise, a `close` whose exceptions are suppressed.
    -- What `__del__` raises goes nowhere.
    abbrev pub after_warning : SyncPort → Result (Unit {0}) × Process W → SyncPort × Process W
    after_warning p (raise e, s) = (p, s)
    after_warning p (ok u, s) = let (r, p', s') = close none p s in (p', s')

    unfoldable pub finalize : SyncPort → Process W → SyncPort × Process W
    unfolding close
    finalize p s = if p.closed then (p, s) else after_warning p (on_world portals.warn s)
