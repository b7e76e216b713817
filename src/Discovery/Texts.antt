-- ===== src/Discovery/Texts.antt =====
-- Texts as code points: what the enumerators use of Python's `str` and `int`.
use Prim.Native.Char.{code}
use Prim.Native.String.{String}
use anyserial.Base.{
  ℕ, zero, suc, ◌+◌, ◌-◌, ◌*◌, ◌/◌, ◌%◌, ◌<◌, ◌≡◌, refl, ◌==◌, ltb, leb, Bool, true, false, ◌&&◌,
  ◌||◌, Option, none, some, [], ◌∷◌, ◌++◌, if◌then◌else◌, arith, ap, ◌∙◌,
}
use anyserial.Discovery.{Text}

-- The code points of a text.
abbrev pub codes : String → Text
codes String.[] = []
codes (String.◌∷◌ c s) = code c ∷ codes s

-- `str.isspace` of a character, which `strip` and `\s` go by.
unfoldable pub is_space : ℕ → Bool
is_space c =
    (leb 9 c && leb c 13)
    || (leb 28 c && leb c 32)
    || (c == 133)
    || (c == 160)
    || (c == 5760)
    || (leb 8192 c && leb c 8202)
    || (c == 8232)
    || (c == 8233)
    || (c == 8239)
    || (c == 8287)
    || (c == 12288)

unfoldable pub strip_left : Text → Text
unfolding is_space
strip_left [] = []
strip_left (c ∷ s) = let rest = strip_left s in if is_space c then rest else c ∷ s

-- Whether nothing but white space is left.
unfoldable pub blank : Text → Bool
unfolding is_space
blank [] = true
blank (c ∷ s) = is_space c && blank s

unfoldable pub strip_right : Text → Text
unfolding blank
strip_right [] = []
strip_right (c ∷ s) = if blank (c ∷ s) then [] else c ∷ strip_right s

-- `text.strip()`
abbrev pub strip_text : Text → Text
strip_text s = strip_left (strip_right s)

-- `text or None`
abbrev pub or_none : Text → Option Text
or_none [] = none
or_none (c ∷ s) = some (c ∷ s)

-- The value of a hexadecimal digit, in either case.
unfoldable pub hex_digit : ℕ → Option ℕ
hex_digit c =
    if leb 48 c && leb c 57
    then some (c - 48)
    else if leb 65 c && leb c 70
    then some (c - 55)
    else if leb 97 c && leb c 102
    then some (c - 87)
    else none

-- The digit itself, in upper case.
unfoldable pub upper_hex : ℕ → ℕ
upper_hex n = if ltb n 10 then n + 48 else n + 55

pub hex_digit-upper_hex : (n : ℕ) → n < 16 → hex_digit (upper_hex n) ≡ some n
unfolding hex_digit upper_hex
hex_digit-upper_hex n h = ground arith

-- Four digits.
unfoldable pub hex4 : ℕ → Text
unfolding upper_hex
hex4 n =
    upper_hex (n / 4096 % 16)
    ∷ upper_hex (n / 256 % 16)
    ∷ upper_hex (n / 16 % 16)
    ∷ upper_hex (n % 16)
    ∷ []

-- The digits of a number, as many as it takes; the number itself is enough fuel.
unfoldable pub hex_digits : ℕ → ℕ → Text
unfolding upper_hex
hex_digits zero n = upper_hex (n % 16) ∷ []
hex_digits (suc fuel) n = elim (n / 16 == 0) [
  | true ↦ upper_hex (n % 16) ∷ []
  | false ↦ hex_digits fuel (n / 16) ++ (upper_hex (n % 16) ∷ [])
]

-- `f"{n:04X}"`
unfoldable pub format_04x : ℕ → Text
unfolding hex4 hex_digits
format_04x n = if ltb n 65536 then hex4 n else hex_digits n n

-- What a text starts with, in either case of its letters, and what follows it.
abbrev pub upper_ascii : ℕ → ℕ
upper_ascii c = if leb 97 c && leb c 122 then c - 32 else c

unfoldable pub after_literal : Text → Text → Option Text
after_literal [] s = some s
after_literal (c ∷ cs) [] = none
after_literal (c ∷ cs) (d ∷ s) =
    let rest = after_literal cs s in if upper_ascii c == upper_ascii d then rest else none

-- So many hexadecimal digits, read on to a value, and what follows them.
unfoldable pub read_hex : ℕ → ℕ → Text → Option (ℕ × Text)
unfolding hex_digit
read_hex zero value s = some (value, s)
read_hex (suc n) value [] = none
read_hex (suc n) value (c ∷ s) = elim (hex_digit c) [
  | none ↦ none
  | some d ↦ read_hex n (value * 16 + d) s
]

-- A literal text is read off in front of any rest.
pub after_literal-append : (cs s : Text) → after_literal cs (cs ++ s) ≡ some s
unfolding after_literal
after_literal-append [] s = refl
after_literal-append (c ∷ cs) s = ground (arith, after_literal-append cs s)

one_digit :
    (n value d : ℕ) (s : Text)
    → d < 16
    → read_hex (suc n) value (upper_hex d ∷ s) ≡ read_hex n (value * 16 + d) s
unfolding read_hex
one_digit n value d s h = rw (hex_digit-upper_hex d h, read_hex) refl

no_digit : (value : ℕ) (s : Text) → read_hex 0 value s ≡ some (value, s)
unfolding read_hex
no_digit value s = refl

four_digits :
    (n : ℕ)
    → n < 65536
    → (((0 * 16 + n / 4096 % 16) * 16 + n / 256 % 16) * 16 + n / 16 % 16) * 16 + n % 16 ≡ n
four_digits n h = omega arith

-- Four digits are read off as the number that they spell.
pub read_hex-hex4 : (n : ℕ) (s : Text) → n < 65536 → read_hex 4 0 (hex4 n ++ s) ≡ some (n, s)
unfolding hex4
read_hex-hex4 n s h =
    one_digit 3 0 (n / 4096 % 16) _ (omega arith)
    ∙ one_digit 2 _ (n / 256 % 16) _ (omega arith)
    ∙ one_digit 1 _ (n / 16 % 16) _ (omega arith)
    ∙ one_digit 0 _ (n % 16) _ (omega arith)
    ∙ no_digit _ s
    ∙ ap (λ v. some (v, s)) (four_digits n h)
