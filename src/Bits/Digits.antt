-- ===== src/Bits/Digits.antt =====
-- The native operations are recursions on binary digits with fuel: what they do to each bit.
use Prim.Native.Nat.{digits, differ, bit_and-bitwise, bit_or-bitwise, bit_xor-bitwise}
use anyserial.Base.{
  ℕ, zero, suc, ◌+◌, ◌*◌, ◌/◌, ◌%◌, ◌≤◌, min, max, Bool, false, ◌&&◌, ◌||◌, ◌≡◌, refl, arith, ◌==◌,
  bit_and, bit_or, bit_xor,
}
use mathlib.Core.Bool.{xor}
use native.Mathlib.Nat.{le_refl}
use anyserial.Bits.{bit}

pub bit-zero : (i : ℕ) → bit 0 i ≡ false
unfolding bit
bit-zero zero = refl
bit-zero (suc i) = bit-zero i

-- A number cut at its lowest digit.
div_of_digit : (r d : ℕ) → d ≤ 1 → (r * 2 + d) / 2 ≡ r
div_of_digit r d h = omega arith

mod_of_digit : (r d : ℕ) → d ≤ 1 → (r * 2 + d) % 2 ≡ d
mod_of_digit r d h = omega arith

-- `g` is the truth table of the digit operation `f`, and `z` is what is left at `a = 0`.
module _ (z : ℕ → ℕ) (f : ℕ → ℕ → ℕ) (g : Bool → Bool → Bool)
    (at_zero : (b i : ℕ) → bit (z b) i ≡ g false (bit b i))
    (small : (a b : ℕ) → f (a % 2) (b % 2) ≤ 1)
    (table : (a b : ℕ) → (f (a % 2) (b % 2) == 1) ≡ g (a % 2 == 1) (b % 2 == 1)) where
  bit-digits : (n a b i : ℕ) → a ≤ n → bit (digits z f n a b) i ≡ g (bit a i) (bit b i)
  unfolding bit
  bit-digits zero zero b i h = rw (bit-zero i) (at_zero b i)
  bit-digits zero (suc a) b i h = absurd (omega arith)
  bit-digits (suc n) zero b i h = rw (bit-zero i) (at_zero b i)
  bit-digits (suc n) (suc a) b zero h =
      rw (mod_of_digit (digits z f n (suc a / 2) (b / 2)) (f (suc a % 2) (b % 2)) (small (suc a) b))
        (table (suc a) b)
  bit-digits (suc n) (suc a) b (suc i) h =
      rw (div_of_digit (digits z f n (suc a / 2) (b / 2)) (f (suc a % 2) (b % 2)) (small (suc a) b))
        (bit-digits n (suc a / 2) (b / 2) i (omega arith))

-- A remainder by 2, for the truth tables.
parity : (a : ℕ) → a % 2 ≤ 1
parity a = omega arith

min_small : (a b : ℕ) → min (a % 2) (b % 2) ≤ 1
min_small a b = omega arith

min_table : (a b : ℕ) → (min (a % 2) (b % 2) == 1) ≡ ((a % 2 == 1) && (b % 2 == 1))
min_table a b = ground (arith, parity a, parity b)

max_small : (a b : ℕ) → max (a % 2) (b % 2) ≤ 1
max_small a b = omega arith

max_table : (a b : ℕ) → (max (a % 2) (b % 2) == 1) ≡ ((a % 2 == 1) || (b % 2 == 1))
max_table a b = ground (arith, parity a, parity b)

differ_bits :
    (x y : ℕ) → x ≤ 1 → y ≤ 1 → (differ x y ≤ 1) × ((differ x y == 1) ≡ xor (x == 1) (y == 1))
unfolding xor
differ_bits zero zero p q = (omega arith, refl)
differ_bits zero (suc zero) p q = (omega arith, refl)
differ_bits (suc zero) zero p q = (omega arith, refl)
differ_bits (suc zero) (suc zero) p q = (omega arith, refl)
differ_bits zero (suc (suc y)) p q = absurd (omega arith)
differ_bits (suc zero) (suc (suc y)) p q = absurd (omega arith)
differ_bits (suc (suc x)) y p q = absurd (omega arith)

pub bit-and : (a b i : ℕ) → bit (bit_and a b) i ≡ (bit a i && bit b i)
bit-and a b i = rw bit_and-bitwise (
    bit-digits (λ y. 0) min (λ x y. x && y) (λ c j. bit-zero j) min_small min_table a a b i
      (le_refl a))

pub bit-or : (a b i : ℕ) → bit (bit_or a b) i ≡ (bit a i || bit b i)
bit-or a b i =
    rw bit_or-bitwise (
      bit-digits (λ y. y) max (λ x y. x || y) (λ c j. refl) max_small max_table a a b i (le_refl a))

pub bit-xor : (a b i : ℕ) → bit (bit_xor a b) i ≡ xor (bit a i) (bit b i)
unfolding xor
bit-xor a b i = rw bit_xor-bitwise (
    bit-digits (λ y. y) differ xor (λ c j. ground arith)
      (λ c d. (differ_bits _ _ (parity c) (parity d)).0)
      (λ c d. (differ_bits _ _ (parity c) (parity d)).1) a a b i (le_refl a))
