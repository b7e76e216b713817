-- ===== src/Scenarios/Registry.antt =====
-- The theorems about IOKit's client, on a registry that counts its entries and CoreFoundation's values.
use anyserial.Base.{
  ℕ, zero, suc, ◌+◌, ◌-◌, ◌<◌, ◌==◌, not, ◌||◌, ◌≡◌, refl, Bool, true, false, some, ℤ, pos, negsuc,
  arith,
}
use anyserial.Discovery.Texts.{codes}
use anyserial.Sync.Leases.{one}
use anyserial.Darwin.Discovery.{enumerate_ports, resolve_port_info}
use anyserial.Darwin.Discovery.Ending.{Settled}
use anyserial.Darwin.Client.{
  Frameworks, Client, Walk, ctypes_client, is_zero, find_usb_parent, get_string, get_int,
  read_property, climb,
}
use anyserial.Darwin.Client.Balance.{CountsEntries, given}
use anyserial.Darwin.Client.Instance.{of_world}
use anyserial.Darwin.Client.Walks.{Dwindles, client_walks-Settled}
use anyserial.Darwin.Client.Values.{CountsValues, Leaves, find_usb_parent-Leaves}

-- The references to entries and to values, and the number of services to come
record Registry : Type 0 where
  pub entries : ℕ → ℕ
  pub values : ℕ → ℕ
  pub to_come : ℕ

abbrev next_of : ℕ → Registry → ℕ × Registry
next_of zero w = (0, w)
next_of (suc n) w = (suc n, record w { entries = λ q. w.entries q + one (suc n) q; to_come = n })

-- The first service has a parent, 20.
abbrev parent_of : Bool → Registry → ℤ × ℕ × Registry
parent_of true w = (pos 0, 20, record w { entries = λ q. w.entries q + one 20 q })
parent_of false w = (negsuc 0, 0, w)

-- Every entry has every property, of value 7; a text is 3.
abbrev registry : Frameworks Registry
registry = record {
  matching = λ w. (1, w);
  matching_services = λ m w. (pos 0, 9, w);
  iterator_next = λ i w. next_of w.to_come w;
  release_iterator = λ i w. w;
  release_entry = λ e w. record w { entries = λ q. w.entries q - one e q };
  parent_entry = λ e w. parent_of (e == 1) w;
  create_property = λ e k w. (7, record w { values = λ q. w.values q + one 7 q });
  create_string = λ k w. (3, record w { values = λ q. w.values q + one 3 q });
  cf_release = λ v w. record w { values = λ q. w.values q - one v q };
  string_length = λ v w. pos 17;
  c_string = λ v size w. some (codes "/dev/cu.usbmodem1");
  decoded = λ bytes. bytes;
  number_value = λ v w. some (pos 1027);
}

abbrev entries : Registry → ℕ → ℕ
entries w q = w.entries q

abbrev values : Registry → ℕ → ℕ
values w q = w.values q

given_next :
    (n : ℕ) (w : Registry) (q : ℕ)
    → entries (next_of n w).1 q ≡ entries w q + given ((next_of n w).0 == 0) (next_of n w).0 q
given_next zero w q = omega arith
given_next (suc n) w q = ground arith

fewer_next :
    (n : ℕ) (w : Registry)
    → w.to_come ≡ n
    → ((next_of n w).0 == 0) ≡ false
    → (next_of n w).1.to_come < w.to_come
fewer_next zero w e h = absurd (cc)
fewer_next (suc n) w e h = omega (arith, e)

given_parent :
    (b : Bool) (w : Registry) (q : ℕ)
    → let (kr, parent, w') = parent_of b w in
      entries w' q ≡ entries w q + given (not (is_zero kr) || (parent == 0)) parent q
given_parent true w q = refl
given_parent false w q = omega arith

same_values : (b : Bool) (w : Registry) (q : ℕ) → values (parent_of b w).2 q ≡ values w q
same_values true w q = refl
same_values false w q = refl

same_to_come : (b : Bool) (w : Registry) → (parent_of b w).2.to_come ≡ w.to_come
same_to_come true w = refl
same_to_come false w = refl

returned : (n : ℕ → ℕ) (e q : ℕ) → 0 < n e → (n q - one e q) + one e q ≡ n q
returned n e q h = ground arith

registry-CountsEntries : CountsEntries entries registry
registry-CountsEntries = record {
  reading = record {
    strings = λ k w q. refl;
    properties = λ e k w q. refl;
    releases = λ v w q. refl;
  };
  matchings = λ w q. refl;
  services = λ m w q. refl;
  iterates = λ i w q. given_next w.to_come w q;
  ends = λ i w q. refl;
  parents = λ e w q. given_parent (e == 1) w q;
  releases = λ e w q h. returned w.entries e q h;
}

registry-Dwindles : Dwindles (λ w. w.to_come) registry
registry-Dwindles = record {
  reading = record {
    strings = λ k w q. refl;
    properties = λ e k w q. refl;
    releases = λ v w q. refl;
  };
  matchings = λ w. refl;
  services = λ m w. refl;
  iterates = λ i w h. fewer_next w.to_come w refl h;
  parents = λ e w. same_to_come (e == 1) w;
  releases = λ e w. refl;
}

registry-CountsValues : CountsValues values registry
registry-CountsValues = record {
  strings = λ k w q. refl;
  properties = λ e k w q. refl;
  releases = λ v w q h. returned w.values v q h;
  parents = λ e w q. same_values (e == 1) w q;
  entries = λ e w q. refl;
}

abbrev plugged : Registry
plugged = record { entries = λ q. 0; values = λ q. 0; to_come = 2 }

abbrev client : Client Registry
client = record { world = plugged; walk = Walk.fresh }

-- The value 7 that was read of the parent is still held.
left_behind : (find_usb_parent registry 1 plugged).1.values 7 ≡ 1
unfolding find_usb_parent read_property climb
left_behind = refl

client_walks-Settled_example :
    Settled (of_world entries) client (enumerate_ports (ctypes_client registry) 3 client)
    × Settled
        (of_world entries)
        client
        (resolve_port_info (ctypes_client registry) 3 (codes "/dev/cu.usbmodem1") client)
client_walks-Settled_example =
    client_walks-Settled entries (λ w. w.to_come) registry registry-CountsEntries registry-Dwindles
      3 (codes "/dev/cu.usbmodem1") client (omega arith)

find_usb_parent-Leaves_example :
    ((q : ℕ) → values (get_string registry 1 "IOCalloutDevice" plugged).1 q ≡ values plugged q)
    × ((q : ℕ) → values (get_int registry 1 "IOCalloutDevice" plugged).1 q ≡ values plugged q)
    × Leaves values registry plugged (find_usb_parent registry 1 plugged)
find_usb_parent-Leaves_example =
    find_usb_parent-Leaves values registry registry-CountsValues 1 "IOCalloutDevice" plugged
