-- ===== src/Bsd/Rejection.antt =====
-- What a configuration that the BSD backend does not support leads to.
use anyserial.Base.{◌≡◌, refl, Bool, true, false, String, Option, none, some, if◌then◌else◌}
use anyserial.Types.{UnsupportedPolicy}
use anyserial.Errors.{ok, raise}
use anyserial.Config.{SerialConfig, Rs485Config}
use anyserial.Backend.Protocol.{Call}
use anyserial.Posix.Kernel.{Kernel, resume_with, ◌>>=◌}
use anyserial.Posix.Backend.{Posix, Platform}
use anyserial.Posix.Backend
use anyserial.Bsd.{
  unsupported, reject_feature, reject_bsd_unsupported, apply_config_to_fd, open_port, configure,
}

-- The configuration asks for RS-485 or for low latency.
abbrev pub asks : SerialConfig → Bool
asks c = elim c.rs485 [ none ↦ c.low_latency | some r ↦ true ]

module _ {K : Type 0} (sys : Kernel K) (host : Platform) where
  rejected :
      (low : Bool) (o : Option Rs485Config) (c : SerialConfig) (k : K)
      → c.low_latency ≡ low
      → c.rs485 ≡ o
      → c.unsupported_policy ≡ UnsupportedPolicy.raise
      → reject_bsd_unsupported sys c k ≡ (if asks c then (raise unsupported, k) else (ok tt, k))
  unfolding reject_bsd_unsupported reject_feature ◌>>=◌
  rejected low (some r) c k p q h = rw (q, h)
  rejected true none c k p q h = rw (q, p, h)
  rejected false none c k p q h = rw (q, p)

  -- A body that starts with the rejection, once that is decided.
  decided :
      (refused : Bool) (body : Call (Posix K) (Unit {0})) (c : SerialConfig) (b : Posix K)
      → reject_bsd_unsupported sys c b.kernel
        ≡ (if refused then (raise unsupported, b.kernel) else (ok tt, b.kernel))
      → resume_with (λ _. body) (Backend.on_kernel (reject_bsd_unsupported sys c) b)
        ≡ (if refused then (raise unsupported, b) else body b)
  decided true body c b h = rw h
  decided false body c b h = rw h

  -- Under the RAISE policy a configuration that asks for RS-485 or low latency is refused before
  -- any system call, by `open` and by `configure`, and the backend is as it was; any other
  -- configuration is handled as by the POSIX backend, with the class's way to set the rate.
  pub bsd_refuses_first :
      (path : String) (c : SerialConfig) (b : Posix K)
      → c.unsupported_policy ≡ UnsupportedPolicy.raise
      → (open_port sys host path c b ≡ (
          if asks c
          then (raise unsupported, b)
          else Backend.open_port sys (apply_config_to_fd sys host) path c b))
        × (configure sys host c b ≡ (
            if asks c
            then (raise unsupported, b)
            else Backend.configure sys (apply_config_to_fd sys host) c b))
  unfolding open_port configure ◌>>=◌
  bsd_refuses_first path c b h =
      let decision = rejected c.low_latency c.rs485 c b.kernel refl refl h in
      (decided (asks c) _ c b decision, decided (asks c) _ c b decision)
