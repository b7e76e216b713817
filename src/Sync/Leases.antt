-- ===== src/Sync/Leases.antt =====
-- Who holds a portal: the ports counted, and the documented behaviour of anyio's providers.
use anyserial.Base.{
  ℕ, zero, suc, ◌+◌, ◌<◌, ◌==◌, ◌≡◌, true, not, String, Option, none, some, List, [], ◌∷◌,
  if◌then◌else◌, arith,
}
use anyserial.Errors.{Exn, ok, raise}
use anyserial.Config.{SerialConfig}
use anyserial.Stream.Loop.{Op}
use anyserial.Sync.{Portals, Bounded, Options, SyncPort}
use anyserial.Sync.Desk.{nth, put}

-- 1 for the provider itself, 0 for another.
abbrev pub one : ℕ → ℕ → ℕ
one p q = if p == q then 1 else 0

-- The references that a port has to a provider.
abbrev pub holds : ℕ → SyncPort → ℕ
holds q p = if p.portal_entered then one p.provider q else 0

abbrev pub count : ℕ → List SyncPort → ℕ
count q [] = 0
count q (p ∷ ps) = holds q p + count q ps

pub count-put :
    (q : ℕ) (ps : List SyncPort) (n : ℕ) (p p' : SyncPort)
    → nth ps n ≡ some p
    → count q (put ps n p') + holds q p ≡ count q ps + holds q p'
count-put q [] n p p' h = absurd (cc)
count-put q (x ∷ ps) zero p p' h = ground arith
count-put q (x ∷ ps) (suc n) p p' h = omega (arith, count-put q ps n p p' h)

-- A provider counts its entries: `__enter__` adds one if it returns, and raises only where it would
-- start the portal, so that there are none; `__exit__` takes one off, whether or not it raises. A
-- new provider has none, and what runs on a portal does not enter or leave one.
pub record CountsLeases {W : Type 0} (portals : Portals W) (leases : W → ℕ → ℕ) : Type 0 where
  pub constructs :
      (b : String) (o : Option Options) (w : W) (q : ℕ)
      → leases (portals.construct b o w).1 q ≡ leases w q
  pub enters :
      (p : ℕ) (w : W) (k q : ℕ)
      → (portals.enter p w).0 ≡ ok k
      → leases (portals.enter p w).1 q ≡ leases w q + one p q
  pub unused : (p : ℕ) (w : W) (e : Exn) → (portals.enter p w).0 ≡ raise e → leases w p ≡ 0
  pub refuses :
      (p : ℕ) (w : W) (e : Exn) (q : ℕ)
      → (portals.enter p w).0 ≡ raise e
      → leases (portals.enter p w).1 q ≡ leases w q
  pub exits :
      (p : ℕ) (w : W) (q : ℕ)
      → 0 < leases w p
      → leases (portals.exit p w).1 q + one p q ≡ leases w q
  pub opening :
      (p : ℕ) (c : Bounded (String × SerialConfig)) (w : W) (q : ℕ)
      → leases (portals.call_open p c w).1 q ≡ leases w q
  pub running :
      (p : ℕ) (c : Bounded (ℕ × Op)) (w : W) (q : ℕ)
      → leases (portals.call_method p c w).1 q ≡ leases w q
  pub asking :
      (p : ℕ) (op : Op) (w : W) (q : ℕ) → leases (portals.call_direct p op w).1 q ≡ leases w q
  pub warning : (w : W) (q : ℕ) → leases (portals.warn w).1 q ≡ leases w q

-- A port is entered until it is closed, and while it is, its provider is the cached one.
abbrev pub Standing : Option ℕ → SyncPort → Type 0
Standing cached p =
    (p.portal_entered ≡ not p.closed) × (p.portal_entered ≡ true → cached ≡ some p.provider)

abbrev pub Holding : Option ℕ → List SyncPort → Type 0
Holding cached [] = Unit
Holding cached (p ∷ ps) = Standing cached p × Holding cached ps

pub nth-Standing :
    (cached : Option ℕ) (ps : List SyncPort) (n : ℕ) (p : SyncPort)
    → Holding cached ps
    → nth ps n ≡ some p
    → Standing cached p
nth-Standing cached [] n p h e = absurd (cc)
nth-Standing cached (x ∷ ps) zero p (s, h) e = ground arith
nth-Standing cached (x ∷ ps) (suc n) p (s, h) e = nth-Standing cached ps n p h e

pub put-Holding :
    (cached : Option ℕ) (ps : List SyncPort) (n : ℕ) (p : SyncPort)
    → Holding cached ps
    → Standing cached p
    → Holding cached (put ps n p)
put-Holding cached [] n p h s = tt
put-Holding cached (x ∷ ps) zero p (t, h) s = (s, h)
put-Holding cached (x ∷ ps) (suc n) p (t, h) s = (t, put-Holding cached ps n p h s)

-- Where no port holds anything, any provider may be cached.
pub none-Holding : (cached : Option ℕ) (ps : List SyncPort) → Holding none ps → Holding cached ps
none-Holding cached [] h = tt
none-Holding cached (p ∷ ps) ((a, b), h) =
    ((a, λ e. absurd (let x = b e in cc)), none-Holding cached ps h)

pub unused-Holding :
    (cached : Option ℕ) (q : ℕ) (ps : List SyncPort)
    → count q ps ≡ 0
    → Holding (some q) ps
    → Holding cached ps
unused-Holding cached q [] z h = tt
unused-Holding cached q (p ∷ ps) z ((a, b), h) =
    ((a, λ e. absurd (let x = b e in ground arith)), unused-Holding cached q ps (omega arith) h)
