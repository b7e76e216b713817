-- ===== src/Sync/Sharing.antt =====
-- All blocking ports share one provider, and it runs exactly while one of them is open.
use anyserial.Base.{
  ℕ, ◌+◌, ◌==◌, ◌≡◌, refl, sym, ap, ◌∙◌, subst, true, String, Option, none, some, List, ◌∷◌, arith,
}
use anyserial.Errors.{Exn, Result, ok, raise}
use anyserial.Config.{SerialConfig, Seconds}
use anyserial.Posix.Kernel.{resume_with}
use anyserial.Sync.{
  Portals, Process, SyncPort, cached_or_new, get_provider, discarded, discard_provider, or_exit,
  or_discard, open_with,
}
use anyserial.Sync.Desk.{opened}
use anyserial.Sync.Leases.{one, count, CountsLeases, Holding, none-Holding, unused-Holding}

one_self : (q : ℕ) → one q q ≡ 1
one_self q = ground arith

same_number : (c q : ℕ) → some c ≡ some q → (c == q) ≡ true
same_number c q e = ground arith

-- Each provider has as many leases as open ports hold it, and an open port holds the cached one.
pub record IsShared {W : Type 0} (leases : W → ℕ → ℕ) (s : Process W) (ps : List SyncPort)
    : Type 0 where
  pub counted : (q : ℕ) → leases s.world q ≡ count q ps
  pub standing : Holding s.provider ps

module _ {W : Type 0} (portals : Portals W) (leases : W → ℕ → ℕ)
    (law : CountsLeases portals leases) where
  pub moved-IsShared :
      (s : Process W) (w : W) (ps : List SyncPort)
      → ((q : ℕ) → leases w q ≡ leases s.world q)
      → IsShared leases s ps
      → IsShared leases (record s { world = w }) ps
  moved-IsShared s w ps e h = record { counted = λ q. e q ∙ h.counted q; standing = h.standing }

  provided :
      (cached : Option ℕ) (s : Process W) (ps : List SyncPort)
      → s.provider ≡ cached
      → IsShared leases s ps
      → let (q, s') = cached_or_new portals cached s in
        (s'.provider ≡ some q) × IsShared leases s' ps
  provided (some q) s ps e h = (e, h)
  provided none s ps e h = (
    refl,
    record {
      counted = λ q. law.constructs _ _ _ q ∙ h.counted q;
      standing = none-Holding _ ps (subst (λ c. Holding c ps) e h.standing);
    },
  )

  -- One lease more than the ports hold, for an open that is under way.
  record IsLent (q : ℕ) (s : Process W) (ps : List SyncPort) : Type 0 where
    counted : (r : ℕ) → leases s.world r ≡ count r ps + one q r
    standing : Holding s.provider ps
    cached : s.provider ≡ some q

  abbrev pub Opens : List SyncPort → Result SyncPort × Process W → Type 0
  Opens ps (ok p, s) = IsShared leases s (p ∷ ps)
  Opens ps (raise e, s) = IsShared leases s ps

  given_back :
      (e : Exn) (q : ℕ) (s : Process W) (ps : List SyncPort) (x : Result (Unit {0}) × W)
      → s.provider ≡ some q
      → Holding s.provider ps
      → ((r : ℕ) → leases x.1 r ≡ count r ps)
      → Opens ps (resume_with (λ u s'. (raise e, s')) (x.0, record s { world = x.1 }))
  given_back e q s ps (ok u, w) c h l = record { counted = l; standing = h }
  given_back e q s ps (raise f, w) c h l = record { counted = l; standing = h }

  or_exit-Opens :
      (q portal : ℕ) (x : Result ℕ × Process W) (ps : List SyncPort)
      → IsLent q x.1 ps
      → Opens ps (or_exit portals q portal x)
  or_exit-Opens q portal (ok a, s) ps h = record {
    counted = λ r. omega (arith, h.counted r);
    standing = ((refl, λ t. h.cached), h.standing);
  }
  or_exit-Opens q portal (raise e, s) ps h =
      given_back e q s ps (portals.exit q s.world) h.cached h.standing (λ r.
        omega (arith, law.exits q s.world r (omega (arith, h.counted q, one_self q)), h.counted r))

  discarded-IsShared :
      (q : ℕ) (cached : Option ℕ) (s : Process W) (ps : List SyncPort)
      → cached ≡ some q
      → IsShared leases s ps
      → Holding none ps
      → IsShared leases (discarded q cached s) ps
  discarded-IsShared q none s ps e h n = h
  discarded-IsShared q (some c) s ps e h n =
      rw (same_number c q e) (record { counted = h.counted; standing = n })

  or_discard-Opens :
      (timeout : Option Seconds) (path : String) (c : SerialConfig) (q : ℕ) (s : Process W)
      (x : Result ℕ × W) (ps : List SyncPort)
      → x ≡ portals.enter q s.world
      → s.provider ≡ some q
      → IsShared leases s ps
      → Opens ps (or_discard portals timeout path c q (x.0, record s { world = x.1 }))
  unfolding discard_provider
  or_discard-Opens timeout path c q s (raise e, w) ps p cached h =
      let failed = sym (ap (λ y. y.0) p) in
      discarded-IsShared q s.provider (record s { world = w }) ps cached
        (moved-IsShared s w ps (λ r. ap (λ y. leases y.1 r) p ∙ law.refuses q s.world e r failed) h)
        (unused-Holding none q ps (sym (h.counted q) ∙ law.unused q s.world e failed)
          (subst (λ t. Holding t ps) cached h.standing))
  or_discard-Opens timeout path c q s (ok portal, w) ps p cached h =
      or_exit-Opens q portal _ ps (record {
        counted = λ r.
            law.opening portal _ w r
            ∙ ap (λ y. leases y.1 r) p
            ∙ law.enters q s.world portal r (sym (ap (λ y. y.0) p))
            ∙ ap (λ n. n + one q r) (h.counted r);
        standing = h.standing;
        cached = cached;
      })

  open_with-Opens :
      (path : String) (c : SerialConfig) (timeout : Option Seconds) (s : Process W)
      (ps : List SyncPort)
      → IsShared leases s ps
      → Opens ps (open_with portals path c timeout s)
  unfolding open_with get_provider
  open_with-Opens path c timeout s ps h =
      let (cached, h') = provided s.provider s ps refl h in
      or_discard-Opens timeout path c _ _ _ ps refl cached h'

  pub opened-IsShared :
      (ps : List SyncPort) (x : Result SyncPort × Process W)
      → Opens ps x
      → IsShared leases (opened ps x).process (opened ps x).ports
  opened-IsShared ps (ok p, s) h = h
  opened-IsShared ps (raise e, s) h = h

  pub chosen-Opens :
      (path : String) (r : Result SerialConfig) (timeout : Option Seconds) (s : Process W)
      (ps : List SyncPort)
      → IsShared leases s ps
      → Opens ps (resume_with (λ c. open_with portals path c timeout) (r, s))
  chosen-Opens path (ok c) timeout s ps h = open_with-Opens path c timeout s ps h
  chosen-Opens path (raise e) timeout s ps h = h
