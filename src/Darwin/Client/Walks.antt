-- ===== src/Darwin/Client/Walks.antt =====
-- The generator of the client runs out, and so a walk with it ends and has given everything back.
use anyserial.Base.{
  ℕ, zero, suc, ◌<◌, ◌==◌, ◌≡◌, refl, ◌∙◌, false, not, ◌||◌, Option, none, some, ℤ, if_cases, arith,
}
use anyserial.Errors.{ok}
use anyserial.Discovery.{Text}
use anyserial.Darwin.Discovery.{enumerate_ports, resolve_port_info}
use anyserial.Darwin.Discovery.Ending.{RunsOut, Advanced, Settled, enumerate_ports-Settled}
use anyserial.Darwin.Client.{
  Frameworks, Walk, Client, is_zero, or_climb, at_parent, climb, find_usb_parent, step_iterator,
  begun, matched, iter_serial_services, ctypes_client,
}
use anyserial.Darwin.Client.Balance.{KeepsProperties, read_property-Keeps, CountsEntries}
use anyserial.Darwin.Client.Instance.{of_world, reading_of, ctypes_client-CountsReferences}

-- Documented behaviour of IOKit: an iterator gives each entry once, and nothing adds entries to it.
pub record Dwindles {W : Type 0} (left : W → ℕ) (lib : Frameworks W) : Type 0 where
  pub reading : KeepsProperties (λ w q. left w) lib
  pub matchings : (w : W) → left (lib.matching w).1 ≡ left w
  pub services : (matching : ℕ) (w : W) → left (lib.matching_services matching w).2 ≡ left w
  pub iterates :
      (iterator : ℕ) (w : W)
      → let (raw, w') = lib.iterator_next iterator w in (raw == 0) ≡ false → left w' < left w
  pub parents : (entry : ℕ) (w : W) → left (lib.parent_entry entry w).2 ≡ left w
  pub releases : (entry : ℕ) (w : W) → left (lib.release_entry entry w) ≡ left w

module _ {W : Type 0} (left : W → ℕ) (lib : Frameworks W) (law : Dwindles left lib) where
  or_climb-Keeps :
      (n parent : ℕ) (next : ℕ → W → Option ℕ × W) (x : ℕ × W)
      → left x.1 ≡ n
      → ((v : W) → left (next parent v).1 ≡ left v)
      → left (or_climb lib parent next x).1 ≡ n
  or_climb-Keeps n parent next (value, w) h k =
      if_cases (λ (y : Option ℕ × W). left y.1 ≡ n) (value == 0) _ _
        (λ t. k _ ∙ law.releases parent w ∙ h) (λ f. h)

  at_parent-Keeps :
      (n : ℕ) (next : ℕ → W → Option ℕ × W) (x : ℤ × ℕ × W)
      → left x.2 ≡ n
      → ((parent : ℕ) (v : W) → left (next parent v).1 ≡ left v)
      → left (at_parent lib next x).1 ≡ n
  at_parent-Keeps n next (kr, parent, w) h k =
      if_cases (λ (y : Option ℕ × W). left y.1 ≡ n) (not (is_zero kr) || (parent == 0)) _ _ (λ t. h)
        (λ f.
          or_climb-Keeps n parent next _
            (read_property-Keeps (λ w q. left w) lib law.reading parent "idVendor" w 0 ∙ h)
            (k parent))

  climb-Keeps : (hops cursor : ℕ) (w : W) → left (climb lib hops cursor w).1 ≡ left w
  unfolding climb
  climb-Keeps zero cursor w = refl
  climb-Keeps (suc hops) cursor w =
      at_parent-Keeps (left w) (climb lib hops) (lib.parent_entry cursor w) (law.parents cursor w)
        (climb-Keeps hops)

  find-Keeps : (service : ℕ) (w : W) → left (find_usb_parent lib service w).1 ≡ left w
  unfolding find_usb_parent
  find-Keeps service w = climb-Keeps 32 service w

  -- A service that the generator gives is one less.
  abbrev Fewer : ℕ → Option ℕ × Client W → Type 0
  Fewer n (none, c) = Unit
  Fewer n (some service, c) = left c.world < n

  step-Fewer : (n iterator : ℕ) (w : W) → left w ≡ n → Fewer n (step_iterator lib iterator w)
  unfolding step_iterator
  step-Fewer n iterator w h =
      let (raw, w') = lib.iterator_next iterator w in
      if_cases (Fewer n) (raw == 0) _ _ (λ t. tt) (λ f. omega (arith, h, law.iterates iterator w f))

  begun-Fewer : (n : ℕ) (x : ℤ × ℕ × W) → left x.2 ≡ n → Fewer n (begun lib x)
  begun-Fewer n (kr, iterator, w) h =
      if_cases (Fewer n) (is_zero kr) _ _ (λ t. step-Fewer n iterator w h) (λ f. tt)

  matched-Fewer : (n : ℕ) (x : ℕ × W) → left x.1 ≡ n → Fewer n (matched lib x)
  matched-Fewer n (matching, w) h =
      if_cases (Fewer n) (matching == 0) _ _ (λ t. tt)
        (λ f. begun-Fewer n (lib.matching_services matching w) (law.services matching w ∙ h))

  iter-Fewer : (walk : Walk) (w : W) → Fewer (left w) (iter_serial_services lib walk w)
  unfolding iter_serial_services
  iter-Fewer Walk.fresh w = matched-Fewer (left w) (lib.matching w) (law.matchings w)
  iter-Fewer (Walk.iterating iterator) w = step-Fewer (left w) iterator w refl
  iter-Fewer Walk.over w = tt

  fewer :
      (c : Client W) (x : Option ℕ × Client W)
      → Fewer (left c.world) x
      → Advanced (λ d. left d.world) c (ok x.0, x.1)
  fewer c (none, d) h = tt
  fewer c (some service, d) h = h

  pub ctypes_client-RunsOut : RunsOut (λ c. left c.world) (ctypes_client lib)
  ctypes_client-RunsOut = record {
    advances = λ c. fewer c (iter_serial_services lib c.walk c.world) (iter-Fewer c.walk c.world);
    reading = reading_of (λ w q. left w) lib law.reading;
    climbs = λ service c q. find-Keeps service c.world;
    releases = λ object c q. law.releases object c.world;
  }

-- Over an IOKit that counts the references to entries of the registry and has fewer services left than
-- there are rounds: with the client of the repository, the enumeration and the lookup end, and
-- whether they return or raise and wherever they stop, every reference to a service or to an
-- ancestor that the client took is given back.
pub client_walks-Settled :
    {W : Type 0} (held : W → ℕ → ℕ) (left : W → ℕ) (lib : Frameworks W)
    → CountsEntries held lib
    → Dwindles left lib
    → (rounds : ℕ) (path : Text) (c : Client W) → left c.world < rounds
    → Settled (of_world held) c (enumerate_ports (ctypes_client lib) rounds c)
      × Settled (of_world held) c (resolve_port_info (ctypes_client lib) rounds path c)
client_walks-Settled held left lib counts dwindles rounds path c h =
    enumerate_ports-Settled (of_world held) (λ d. left d.world) (ctypes_client lib)
      (ctypes_client-CountsReferences held lib counts) (ctypes_client-RunsOut left lib dwindles)
      rounds path c h
