-- ===== src/Opening.antt =====
-- src/anyserial/stream.py: `open_serial_port`, `SerialConnectable`, and the metadata of the port.
pub mod Closed
pub mod Released
use anyserial.Base.{Bool, true, false, String, Option, none, some, if◌then◌else◌}
use anyserial.Errors.{Exn, Context, Result, ok, raise, is_os_error, errno_to_exception}
use anyserial.Config.{SerialConfig, default_config}
use anyserial.Backend.Protocol.{Call, SyncBackend}
use anyserial.Backend.Asynchronous.{AsyncBackend}
use anyserial.Posix.Kernel.{resume_with}
use anyserial.Stream.Port.{Port, new_port}
use anyserial.AsyncPort.{AsyncPort, new_async_port}
use anyserial.Discovery.{PortInfo}
use anyserial.Selection.{Platform, select_backend}

-- The platform's own `resolve_port_info`, if there is one.
abbrev pub Resolver : Type 0
Resolver = Option (String → Result (Option PortInfo))

-- `except OSError: return None`
abbrev pub found : Result (Option PortInfo) → Result (Option PortInfo)
found (ok info) = ok info
found (raise e) = if is_os_error e then ok none else raise e

unfoldable pub resolve_port_info_for_path : Resolver → String → Result (Option PortInfo)
resolve_port_info_for_path none path = ok none
resolve_port_info_for_path (some resolver) path = found (resolver path)

-- `config if config is not None else SerialConfig()`
abbrev pub config_or_default : Option SerialConfig → SerialConfig
config_or_default none = default_config
config_or_default (some config) = config

-- A port, and the `port_info` that it was given.
pub record OpenPort (P : Type 0) : Type 0 where
  pub port : P
  pub port_info : Option PortInfo

module _ {B : Type 0} where
  -- With the metadata at hand, or the exception of its lookup.
  abbrev pub wrapped : {P : Type 0} → (B → P) → Result (Option PortInfo) → Call B (OpenPort P)
  wrapped wrap (ok info) b = (ok (record { port = wrap b; port_info = info }), b)
  wrapped wrap (raise e) b = (raise e, b)

  -- `except OSError as exc: raise errno_to_exception(…)`
  abbrev pub mapped_open : String → Result (Unit {0}) × B → Result (Unit {0}) × B
  mapped_open path (ok u, b) = (ok u, b)
  mapped_open path (raise e, b) =
      (raise (if is_os_error e then errno_to_exception e Context.opening (some path) else e), b)

  -- The branch of a `SyncSerialBackend`.
  unfoldable pub open_sync :
      SyncBackend B → Resolver → String → Option SerialConfig → Call B (OpenPort (Port B))
  unfolding resolve_port_info_for_path
  open_sync be resolver path config b =
      let cfg = config_or_default config in
      resume_with (λ u. wrapped (λ b. new_port be b cfg) (resolve_port_info_for_path resolver path))
        (mapped_open path (be.open_port path cfg b))

  -- The branch of an `AsyncSerialBackend`: the lookup comes first.
  unfoldable pub open_async :
      AsyncBackend B → Resolver → String → Option SerialConfig → Call B (OpenPort (AsyncPort B))
  unfolding resolve_port_info_for_path
  open_async be resolver path config b =
      let cfg = config_or_default config in
      resume_with
        (λ info b'.
          resume_with (λ u. wrapped (λ b. new_async_port be b cfg) (ok info))
            (be.open_port path cfg b'))
        (resolve_port_info_for_path resolver path, b)

-- A backend of either kind, as `select_backend` instantiates it, and the port on it.
pub data SerialBackend (B : Type 0) : Type 0 where
  sync : SyncBackend B → SerialBackend B
  asynchronous : AsyncBackend B → SerialBackend B

pub data SerialPort (B : Type 0) : Type 0 where
  posix : Port B → SerialPort B
  async_backend : AsyncPort B → SerialPort B

module _ {B : Type 0} where
  abbrev pub as_port :
      {P : Type 0}
      → (P → SerialPort B)
      → Result (OpenPort P) × B
      → Result (OpenPort (SerialPort B)) × B
  as_port wrap (ok o, b) = (ok (record { port = wrap o.port; port_info = o.port_info }), b)
  as_port wrap (raise e, b) = (raise e, b)

  -- `isinstance(backend, SyncSerialBackend)`
  abbrev pub open_on :
      SerialBackend B → Resolver → String → Option SerialConfig → Call B (OpenPort (SerialPort B))
  open_on (SerialBackend.sync be) resolver path config b =
      as_port SerialPort.posix (open_sync be resolver path config b)
  open_on (SerialBackend.asynchronous be) resolver path config b =
      as_port SerialPort.async_backend (open_async be resolver path config b)

  -- On the platform of that name, where `instances` are the classes of the backends.
  unfoldable pub open_serial_port :
      String
      → (Platform → SerialBackend B)
      → Resolver
      → String
      → Option SerialConfig
      → Call B (OpenPort (SerialPort B))
  unfolding select_backend open_sync open_async
  open_serial_port platform instances resolver path config b = elim (select_backend platform) [
    | raise e ↦ (raise e, b)
    | ok chosen ↦ open_on (instances chosen) resolver path config b
  ]

-- `SerialConnectable`: `__init__` and `connect`
pub record SerialConnectable : Type 0 where
  pub path : String
  pub config : SerialConfig

unfoldable pub new_connectable : String → Option SerialConfig → SerialConnectable
new_connectable path config = record { path = path; config = config_or_default config }

unfoldable pub connect :
    {B : Type 0}
    → String
    → (Platform → SerialBackend B)
    → Resolver
    → SerialConnectable
    → Call B (OpenPort (SerialPort B))
unfolding open_serial_port
connect platform instances resolver c =
    open_serial_port platform instances resolver c.path (some c.config)
