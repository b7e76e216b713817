-- ===== src/Posix/Baudrate.antt =====
-- src/anyserial/_posix/baudrate.py: the standard rates of the host's `termios` module.
pub mod Discovery
use anyserial.Base.{
  ℕ, zero, suc, ◌+◌, ◌-◌, ◌*◌, ◌==◌, ltb, leb, length, Bool, true, false, ◌&&◌, Option, none, some,
  List, [], ◌∷◌, if◌then◌else◌,
}
use anyserial.Errors.{Exn, SerialClass, no_attributes, Result, ok, raise}

-- An attribute of the module: its name, in code points, and its value if that is an int.
pub record Attribute : Type 0 where
  pub name : List ℕ
  pub value : Option ℕ

-- `str.isdigit`, on the ASCII names of attributes; an empty text is not one of digits.
abbrev is_digit : ℕ → Bool
is_digit c = leb 48 c && leb c 57

abbrev all_digits : List ℕ → Bool
all_digits [] = true
all_digits (c ∷ cs) = is_digit c && all_digits cs

-- `int(digits)`
unfoldable pub digits_value : ℕ → List ℕ → ℕ
digits_value acc [] = acc
digits_value acc (c ∷ cs) = digits_value (acc * 10 + (c - 48)) cs

-- The rate that a name `Bxxxx` of an attribute spells; B0 means to hang up.
unfoldable pub rate_of_name : List ℕ → Option ℕ
unfolding digits_value
rate_of_name [] = none
rate_of_name (b ∷ []) = none
rate_of_name (b ∷ c ∷ cs) =
    if (b == 66) && all_digits (c ∷ cs)
    then (if digits_value 0 (c ∷ cs) == 0 then none else some (digits_value 0 (c ∷ cs)))
    else none

-- `mapping[bps] = value`, which replaces the entry of a key that is there.
unfoldable pub store : ℕ → ℕ → List (ℕ × ℕ) → List (ℕ × ℕ)
store k v [] = (k, v) ∷ []
store k v ((j, w) ∷ m) = if j == k then (k, v) ∷ m else (j, w) ∷ store k v m

unfoldable pub speed_of : ℕ → List (ℕ × ℕ) → Option ℕ
speed_of k [] = none
speed_of k ((j, w) ∷ m) = if j == k then some w else speed_of k m

abbrev pub store_found : Option ℕ → Option ℕ → List (ℕ × ℕ) → List (ℕ × ℕ)
store_found none value m = m
store_found (some bps) none m = m
store_found (some bps) (some value) m = store bps value m

-- `_discover_standard_baud_rates`, from the mapping that the attributes before gave.
unfoldable pub discover : List Attribute → List (ℕ × ℕ) → List (ℕ × ℕ)
unfolding store rate_of_name
discover [] m = m
discover (a ∷ rest) m = discover rest (store_found (rate_of_name a.name) a.value m)

abbrev pub unsupported_rate : Exn
unsupported_rate = Exn.serial SerialClass.unsupported_configuration no_attributes

unfoldable pub baudrate_to_speed : List (ℕ × ℕ) → ℕ → Result ℕ
unfolding speed_of
baudrate_to_speed m rate = elim (speed_of rate m) [
  | none ↦ raise unsupported_rate
  | some speed ↦ ok speed
]

unfoldable pub is_standard_baud : List (ℕ × ℕ) → ℕ → Bool
unfolding speed_of
is_standard_baud m rate = elim (speed_of rate m) [ none ↦ false | some speed ↦ true ]
