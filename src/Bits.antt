-- ===== src/Bits.antt =====
-- Flag words: Python's `&`, `|` and `& ~` on non-negative integers, read bit by bit.
-- `x & ~m` never leaves the naturals, so a flag word is a native number.
pub mod Digits
pub mod Laws
use anyserial.Base.{ℕ, zero, suc, ◌/◌, ◌%◌, bit_and, bit_or, bit_xor, Bool, ◌==◌}

-- Bit number `i` of `x`.
unfoldable pub bit : ℕ → ℕ → Bool
bit x zero = x % 2 == 1
bit x (suc i) = bit (x / 2) i

infixl 60 ◌&◌
abbrev pub ◌&◌ : ℕ → ℕ → ℕ
x & m = bit_and x m

infixl 55 ◌¦◌
abbrev pub ◌¦◌ : ℕ → ℕ → ℕ
x ¦ m = bit_or x m

-- `x & ~m`: the bits of `x` that `m` does not have.
infixl 60 ◌&~◌
unfoldable pub ◌&~◌ : ℕ → ℕ → ℕ
x &~ m = bit_xor x (bit_and x m)
