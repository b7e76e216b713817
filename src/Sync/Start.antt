-- ===== src/Sync/Start.antt =====
-- A portal that does not start.
use anyserial.Base.{ℕ, ◌==◌, ◌≡◌, refl, true, String, Option, none, some, arith}
use anyserial.Errors.{Exn, Result, ok, raise}
use anyserial.Config.{SerialConfig, Seconds}
use anyserial.Sync.{
  Portals, Process, Options, configure_portal, cached_or_new, get_provider, discarded,
  discard_provider, or_discard, open_with,
}

module _ {W : Type 0} (portals : Portals W) where
  cached :
      (o : Option ℕ) (s : Process W)
      → s.provider ≡ o
      → let (q, s') = cached_or_new portals o s in s'.provider ≡ some q
  cached (some q) s e = e
  cached none s e = refl

  forgets :
      (backend : String) (options : Option Options) (q : ℕ) (o : Option ℕ) (s : Process W)
      → s.provider ≡ o
      → o ≡ some q
      → (configure_portal backend options (discarded q o s)).0 ≡ ok tt
  unfolding configure_portal
  forgets backend options q none s p e = absurd (cc)
  forgets backend options q (some c) s p e =
      let same : (c == q) ≡ true = ground arith in rw same refl

  failed :
      (path : String) (c : SerialConfig) (timeout : Option Seconds) (e : Exn) (q : ℕ)
      (s : Process W) (x : Result ℕ × Process W) (backend : String) (options : Option Options)
      → x.0 ≡ raise e
      → x.1.provider ≡ some q
      → let (r, after) = or_discard portals timeout path c q x in
        (r ≡ raise e) × ((configure_portal backend options after).0 ≡ ok tt)
  unfolding discard_provider
  failed path c timeout e q s (ok k, t) backend options f p = absurd (cc)
  failed path c timeout e q s (raise g, t) backend options f p =
      ((cc), forgets backend options q t.provider t refl p)

  -- Where the portal of the process does not start, `open` raises what the start raised, and
  -- `configure_portal` is possible after it.
  pub open_with_restartable :
      (path : String) (c : SerialConfig) (timeout : Option Seconds) (s : Process W) (e : Exn)
      (backend : String) (options : Option Options)
      → (let (q, started) = get_provider portals s in (portals.enter q started.world).0 ≡ raise e)
      → let (r, after) = open_with portals path c timeout s in
        (r ≡ raise e) × ((configure_portal backend options after).0 ≡ ok tt)
  unfolding open_with get_provider
  open_with_restartable path c timeout s e backend options f =
      failed path c timeout e _ s _ backend options f (cached s.provider s refl)
