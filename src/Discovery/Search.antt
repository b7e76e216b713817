-- ===== src/Discovery/Search.antt =====
-- What `find_serial_port` answers.
use anyserial.Base.{
  ◌≡◌, refl, ap, Bool, true, false, String, Option, none, some, List, [], ◌∷◌, ◌++◌, Bool-cases,
  inl, inr,
}
use anyserial.Errors.{Result, ok, raise}
use anyserial.Selection.{DiscoveryBackend, Enumerator}
use anyserial.Discovery.{
  Text, PortInfo, Naming, Filters, canonical_port_name, accepts, passes, first_match, among,
  list_serial_ports, find_serial_port,
}
use anyserial.Discovery.Names.{ResolvesOnce, canonical_twice}

abbrev pub NoneOf : (PortInfo → Bool) → List PortInfo → Type 0
NoneOf test [] = Unit
NoneOf test (p ∷ ps) = (test p ≡ false) × NoneOf test ps

-- The first port that passes a test, in the order of the list; `none` where there is no such port.
abbrev pub IsFirst : (PortInfo → Bool) → List PortInfo → Option PortInfo → Type 0
IsFirst test ports none = NoneOf test ports
IsFirst test ports (some p) =
    (before : List PortInfo) × (after : List PortInfo) × (ports ≡ before ++ p ∷ after)
    × NoneOf test before
    × (test p ≡ true)

pub one_more :
    (test : PortInfo → Bool) (q : PortInfo) (ports : List PortInfo) (o : Option PortInfo)
    → test q ≡ false
    → IsFirst test ports o
    → IsFirst test (q ∷ ports) o
one_more test q ports none h n = (h, n)
one_more test q ports (some p) h (before, after, e, n, t) =
    (q ∷ before, after, ap (λ ps. q ∷ ps) e, (h, n), t)

pub first_match-IsFirst :
    (test : PortInfo → Bool) (ports : List PortInfo) → IsFirst test ports (first_match test ports)
unfolding first_match
first_match-IsFirst test [] = tt
first_match-IsFirst test (p ∷ ps) = elim (Bool-cases (test p)) [
  | inl y ↦ rw y ([], ps, refl, tt, y)
  | inr n ↦ rw n (one_more test p ps (first_match test ps) n (first_match-IsFirst test ps))
]

-- The search raises what the listing raises, or returns the first match in the list.
abbrev pub Searched : (PortInfo → Bool) → Result (List PortInfo) → Result (Option PortInfo) → Type 0
Searched test (raise e) r = r ≡ raise e
Searched test (ok ports) r = (o : Option PortInfo) × (r ≡ ok o) × IsFirst test ports o

among-Searched :
    (test : PortInfo → Bool) (r : Result (List PortInfo)) → Searched test r (among test r)
among-Searched test (raise e) = refl
among-Searched test (ok ports) = (first_match test ports, refl, first_match-IsFirst test ports)

-- For every enumerator and every choice of filters, `find_serial_port` raises exactly what
-- `list_serial_ports` raises, and otherwise returns the first port of that list which passes the
-- filters, or none where every port fails them.
pub find_serial_port-Searched :
    (enumerate : Enumerator → Result (List PortInfo)) (host : Naming) (platform : String)
    (backend : DiscoveryBackend) (f : Filters)
    → Searched
        (accepts host f)
        (list_serial_ports enumerate platform backend)
        (find_serial_port enumerate host platform backend f)
unfolding find_serial_port
find_serial_port-Searched enumerate host platform backend f =
    among-Searched (accepts host f) (list_serial_ports enumerate platform backend)

-- Where upper case and the resolving of links are final: a search for a device by its canonical
-- name answers what the search by the name as it was spelled does, whatever the other filters.
pub find_any_spelling :
    (enumerate : Enumerator → Result (List PortInfo)) (host : Naming) (platform : String)
    (backend : DiscoveryBackend) (f : Filters) (s : Text)
    → ResolvesOnce host
    → find_serial_port enumerate host platform backend
        (record f { device = some (canonical_port_name host s) })
      ≡ find_serial_port enumerate host platform backend (record f { device = some s })
unfolding find_serial_port accepts
find_any_spelling enumerate host platform backend f s law =
    ap (λ w. among (passes host f (some w)) (list_serial_ports enumerate platform backend))
      (canonical_twice host law s)
