-- ===== src/Sync/Lifetime.antt =====
-- The closing of a blocking port, and a process from its start on.
use anyserial.Base.{
  ℕ, zero, suc, ◌+◌, ◌<◌, ◌≡◌, refl, sym, ap, subst, ◌∙◌, true, false, not, String, Option, none,
  some, List, [], ◌∷◌, arith, if_cases,
}
use anyserial.Errors.{Result, ok, raise, is_exception}
use anyserial.Config.{Seconds}
use anyserial.Stream.Port.{Reply}
use anyserial.Stream.Loop.{Op}
use anyserial.Sync.{
  Portals, Process, SyncPort, Options, configure_portal, open_port, method, snapshot,
  release_portal, after_release, suppressed_exception, close, finalize, after_warning,
  chosen_config, configured, bounded,
}
use anyserial.Sync.Desk.{Desk, Command, nth, at_port, act, act_all, fresh}
use anyserial.Sync.Leases.{
  one, holds, count, count-put, CountsLeases, Standing, nth-Standing, put-Holding, Holding,
}
use anyserial.Sync.Sharing.{IsShared, chosen-Opens, opened-IsShared}

held :
    (ps : List SyncPort) (n : ℕ) (p : SyncPort)
    → nth ps n ≡ some p
    → p.portal_entered ≡ true
    → 0 < count p.provider ps
held [] n p e t = absurd (cc)
held (x ∷ ps) zero p e t = ground arith
held (x ∷ ps) (suc n) p e t = omega (arith, held ps n p e t)

module _ {W : Type 0} (portals : Portals W) (leases : W → ℕ → ℕ)
    (law : CountsLeases portals leases) where
  -- What a call does to its port and to the process: the port gives up as many leases as it held and
  -- holds no longer.
  record Settles (p : SyncPort) (s : Process W) (x : SyncPort × Process W) : Type 0 where
    same : x.1.provider ≡ s.provider
    stands : Standing s.provider x.0
    moved : (q : ℕ) → leases x.1.world q + holds q p ≡ leases s.world q + holds q x.0

  record CanLeave (p : SyncPort) (s : Process W) : Type 0 where
    stands : Standing s.provider p
    leased : p.portal_entered ≡ true → 0 < leases s.world p.provider

  nothing-Settles :
      (p : SyncPort) (s : Process W) (w : W)
      → Standing s.provider p
      → ((q : ℕ) → leases w q ≡ leases s.world q)
      → Settles p s (p, record s { world = w })
  nothing-Settles p s w h e = record { same = refl; stands = h; moved = λ q. omega (arith, e q) }

  abbrev last_two : Result (Unit {0}) × SyncPort × Process W → SyncPort × Process W
  last_two (r, p, s) = (p, s)

  -- The port is left behind, with its lease given up.
  gone-Settles :
      (p : SyncPort) (s : Process W) (w : W)
      → p.portal_entered ≡ true
      → ((q : ℕ) → leases w q + one p.provider q ≡ leases s.world q)
      → Settles p s (record p { portal_entered = false; closed = true }, record s { world = w })
  gone-Settles p s w e l = record {
    same = refl;
    stands = (refl, λ t. absurd (cc));
    moved = λ q. ground (arith, l q);
  }

  left-Settles :
      (p : SyncPort) (s : Process W) (x : Result (Unit {0}) × W)
      → p.portal_entered ≡ true
      → ((q : ℕ) → leases x.1 q + one p.provider q ≡ leases s.world q)
      → Settles p s (
          last_two (
            suppressed_exception
              (record p { portal_entered = false; closed = true })
              (x.0, record s { world = x.1 })))
  left-Settles p s (ok u, w) e l = gone-Settles p s w e l
  left-Settles p s (raise f, w) e l =
      let gone = gone-Settles p s w e l in
      if_cases (λ (y : Result (Unit {0}) × SyncPort × Process W). Settles p s (last_two y))
        (is_exception f) _ _ (λ t. gone) (λ t. gone)

  after_release-Settles :
      (p : SyncPort) (s : Process W) (r : Result Reply)
      (x : Result (Unit {0}) × SyncPort × Process W)
      → Settles p s (last_two x)
      → Settles p s (last_two (after_release portals r x))
  after_release-Settles p s (ok reply) x h = h
  after_release-Settles p s (raise e) (ok u, p', s') h = h
  after_release-Settles p s (raise e) (raise f, p', s') h = h

  close-Settles :
      (timeout : Option Seconds) (p : SyncPort) (s : Process W)
      → CanLeave p s
      → Settles p s (last_two (close portals timeout p s))
  unfolding close method release_portal
  close-Settles timeout p s h =
      if_cases (λ (x : Result (Unit {0}) × SyncPort × Process W). Settles p s (last_two x)) p.closed
        _ _ (λ t. nothing-Settles p s s.world h.stands (λ q. refl))
        (λ t.
          let entered = h.stands.0 ∙ ap not t in
          let x = portals.call_method p.portal (bounded timeout (p.async_port, Op.close)) s.world in
          let kept =
            λ (q : ℕ). law.running p.portal (bounded timeout (p.async_port, Op.close)) s.world q in
          after_release-Settles p s x.0 _ (
            if_cases (λ (y : Result (Unit {0}) × SyncPort × Process W). Settles p s (last_two y))
              p.portal_entered _ _
              (λ u. left-Settles p s (portals.exit p.provider x.1) entered (λ q.
                law.exits p.provider x.1 q (omega (arith, kept p.provider, h.leased entered))
                ∙ kept q))
              (λ u. absurd (cc))))

  warned-Settles :
      (p : SyncPort) (s : Process W) (x : Result (Unit {0}) × W)
      → CanLeave p s
      → ((q : ℕ) → leases x.1 q ≡ leases s.world q)
      → Settles p s (after_warning portals p (x.0, record s { world = x.1 }))
  warned-Settles p s (raise e, w) h k = nothing-Settles p s w h.stands k
  warned-Settles p s (ok u, w) h k =
      let out =
        close-Settles none p (record s { world = w })
          (record { stands = h.stands; leased = λ t. omega (arith, k p.provider, h.leased t) }) in
      record { same = out.same; stands = out.stands; moved = λ q. omega (arith, out.moved q, k q) }

  finalize-Settles :
      (p : SyncPort) (s : Process W) → CanLeave p s → Settles p s (finalize portals p s)
  unfolding finalize
  finalize-Settles p s h =
      if_cases (λ x. Settles p s x) p.closed _ _
        (λ t. nothing-Settles p s s.world h.stands (λ q. refl))
        (λ t. warned-Settles p s (portals.warn s.world) h (law.warning s.world))

  at_port-IsShared :
      (f : SyncPort → Process W → SyncPort × Process W) (n : ℕ) (o : Option SyncPort) (d : Desk W)
      → nth d.ports n ≡ o
      → ((p : SyncPort) → CanLeave p d.process → Settles p d.process (f p d.process))
      → IsShared leases d.process d.ports
      → let d' = at_port f n o d in IsShared leases d'.process d'.ports
  at_port-IsShared f n none d e c h = h
  at_port-IsShared f n (some p) d e c h =
      let out = c p (record {
        stands = nth-Standing _ d.ports n p h.standing e;
        leased = λ t. omega (arith, h.counted p.provider, held d.ports n p e t);
      }) in
      record {
        counted = λ q.
            omega (arith, out.moved q, h.counted q, count-put q d.ports n p (f p d.process).0 e);
        standing =
            put-Holding _ d.ports n _ (subst (λ k. Holding k d.ports) (sym out.same) h.standing)
              (subst (λ k. Standing k (f p d.process).0) (sym out.same) out.stands);
      }

  configured-IsShared :
      (backend : String) (options : Option Options) (cached : Option ℕ) (s : Process W)
      (ps : List SyncPort)
      → IsShared leases s ps
      → IsShared leases (configured backend options cached s).1 ps
  configured-IsShared backend options (some q) s ps h = h
  configured-IsShared backend options none s ps h = record {
    counted = h.counted;
    standing = h.standing;
  }

  act-IsShared :
      (c : Command) (d : Desk W)
      → IsShared leases d.process d.ports
      → let d' = act portals c d in IsShared leases d'.process d'.ports
  unfolding act configure_portal open_port method snapshot
  act-IsShared (Command.configuring backend options) d h =
      configured-IsShared backend options d.process.provider d.process d.ports h
  act-IsShared (Command.opening path config fields timeout) d h =
      opened-IsShared portals leases law d.ports _ (
        chosen-Opens portals leases law path (chosen_config config fields) timeout d.process d.ports
          h)
  act-IsShared (Command.running n op timeout) d h =
      at_port-IsShared _ n (nth d.ports n) d refl
        (λ p c. nothing-Settles p d.process _ c.stands (law.running _ _ d.process.world)) h
  act-IsShared (Command.asking n op) d h =
      at_port-IsShared _ n (nth d.ports n) d refl
        (λ p c. nothing-Settles p d.process _ c.stands (law.asking _ _ d.process.world)) h
  act-IsShared (Command.closing n timeout) d h =
      at_port-IsShared _ n (nth d.ports n) d refl (λ p c. close-Settles timeout p d.process c) h
  act-IsShared (Command.finalizing n) d h =
      at_port-IsShared _ n (nth d.ports n) d refl (λ p c. finalize-Settles p d.process c) h

  run_keeps :
      (cs : List Command) (d : Desk W)
      → IsShared leases d.process d.ports
      → let d' = act_all portals cs d in IsShared leases d'.process d'.ports
  unfolding act_all
  run_keeps [] d h = h
  run_keeps (c ∷ cs) d h = run_keeps cs (act portals c d) (act-IsShared c d h)

  -- In a process that starts with no lease, after any calls of `configure_portal`, of `open` and of
  -- the methods, `close` and `__del__` of the ports, one after the other, whatever of it raises or
  -- times out: each provider has exactly as many leases as there are ports that it was entered for
  -- and that are not closed, and these ports all hold the one provider that is cached.
  pub act_all-IsShared :
      (cs : List Command) (w : W)
      → ((q : ℕ) → leases w q ≡ 0)
      → let d = act_all portals cs (fresh w) in IsShared leases d.process d.ports
  act_all-IsShared cs w z = run_keeps cs (fresh w) (record { counted = z; standing = tt })
