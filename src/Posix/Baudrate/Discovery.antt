-- ===== src/Posix/Baudrate/Discovery.antt =====
-- Which rates are standard: what the scan of the `termios` module leaves in the table.
use anyserial.Base.{
  ℕ, ◌==◌, ◌≡◌, refl, ap, ◌∙◌, Option, none, some, List, [], ◌∷◌, if◌then◌else◌, arith,
}
use anyserial.Posix.Baudrate.{Attribute, discover, store, store_found, speed_of, rate_of_name}

-- What one attribute says of a rate: its value, if it names the rate and has one.
abbrev pub latest : ℕ → Option ℕ → Option ℕ → Option ℕ → Option ℕ
latest rate none value found = found
latest rate (some bps) none found = found
latest rate (some bps) (some value) found = if bps == rate then some value else found

-- The last attribute that names the rate, if one does.
abbrev pub named : ℕ → List Attribute → Option ℕ → Option ℕ
named rate [] found = found
named rate (a ∷ rest) found = named rate rest (latest rate (rate_of_name a.name) a.value found)

speed_of-store :
    (rate k v : ℕ) (m : List (ℕ × ℕ))
    → speed_of rate (store k v m) ≡ (if k == rate then some v else speed_of rate m)
unfolding speed_of store
speed_of-store rate k v [] = refl
speed_of-store rate k v ((j, w) ∷ m) = ground (arith, speed_of-store rate k v m)

speed_of-store_found :
    (rate : ℕ) (name value : Option ℕ) (m : List (ℕ × ℕ))
    → speed_of rate (store_found name value m) ≡ latest rate name value (speed_of rate m)
speed_of-store_found rate none value m = refl
speed_of-store_found rate (some bps) none m = refl
speed_of-store_found rate (some bps) (some v) m = speed_of-store rate bps v m

-- The table that the scan makes has for each rate the value of the last attribute that spells the
-- rate after a `B` and has an int for its value, and no entry for any other rate but those that
-- were there.
pub speed_of-discover :
    (rate : ℕ) (attributes : List Attribute) (m : List (ℕ × ℕ))
    → speed_of rate (discover attributes m) ≡ named rate attributes (speed_of rate m)
unfolding discover
speed_of-discover rate [] m = refl
speed_of-discover rate (a ∷ rest) m =
    speed_of-discover rate rest (store_found (rate_of_name a.name) a.value m)
    ∙ ap (named rate rest) (speed_of-store_found rate (rate_of_name a.name) a.value m)
