-- ===== src/Bits/Laws.antt =====
-- The laws of flag words, each proved from the truth tables of the bits.
use mathlib.Core.Bool.{xor}
use anyserial.Base.{
  ℕ, zero, suc, refl, not, ◌||◌, ◌+◌, ◌/◌, ◌≤◌, not, ◌&&◌, ◌≡◌, arith, ap, bit_and,
}
use anyserial.Bits.{bit, ◌&◌, ◌¦◌, ◌&~◌}
use anyserial.Bits.Digits.{bit-zero, bit-and, bit-or, bit-xor}

pub bit-clear : (a m i : ℕ) → bit (a &~ m) i ≡ (bit a i && not (bit m i))
unfolding ◌&~◌ xor
bit-clear a m i = ground (arith, bit-xor a (bit_and a m) i, bit-and a m i)

-- Two words with the same bits are the same number.
eq_of_bits_fuel : (n a b : ℕ) → a ≤ n → b ≤ n → ((i : ℕ) → bit a i ≡ bit b i) → a ≡ b
unfolding bit
eq_of_bits_fuel zero a b p q h = omega arith
eq_of_bits_fuel (suc n) a b p q h =
    ground
      (arith, h 0, eq_of_bits_fuel n (a / 2) (b / 2) (omega arith) (omega arith) (λ i. h (suc i)))

pub eq_of_bits : (a b : ℕ) → ((i : ℕ) → bit a i ≡ bit b i) → a ≡ b
eq_of_bits a b h = eq_of_bits_fuel (a + b) a b (omega arith) (omega arith) h

-- A field written through its mask: `x & ~m | b`.
pub write : ℕ → ℕ → ℕ → ℕ
write m b x = (x &~ m) ¦ b

pub bit-write : (m b x i : ℕ) → bit (write m b x) i ≡ (bit x i && not (bit m i) || bit b i)
unfolding write
bit-write m b x i = ground (arith, bit-or (x &~ m) b i, bit-clear x m i)

pub write_lem : (m b x : ℕ) → (x &~ m) ¦ b ≡ write m b x
unfolding write
write_lem m b x = refl

-- Setting and clearing a mask are writes.
module _ (m x : ℕ) where
  pub or-write : x ¦ m ≡ write m m x
  or-write = eq_of_bits _ _ λ i. ground (arith, bit-or x m i, bit-write m m x i)

  pub clear-write : x &~ m ≡ write m 0 x
  clear-write = eq_of_bits _ _ λ i. ground (arith, bit-clear x m i, bit-write m 0 x i, bit-zero i)

-- Two writes are one.
module _ (m b n c x : ℕ) where
  pub write-write : write n c (write m b x) ≡ write (m ¦ n) (write n c b) x
  write-write = eq_of_bits _ _ λ i. ground (
    arith,
    bit-write n c (write m b x) i,
    bit-write m b x i,
    bit-write (m ¦ n) (write n c b) x i,
    bit-or m n i,
    bit-write n c b i,
  )

-- What is read through a mask after a write.
module _ (m b x : ℕ) where
  -- A field of the bits that are written reads what was written.
  pub and-write : (k : ℕ) → k & m ≡ k → write m b x & k ≡ b & k
  and-write k h = eq_of_bits _ _ λ i. ground (
    arith,
    bit-and (write m b x) k i,
    bit-write m b x i,
    bit-and b k i,
    bit-and k m i,
    ap (λ (t : ℕ). bit t i) h,
  )

  -- A field outside the mask is as it was.
  pub and-write_other : (k : ℕ) → m & k ≡ 0 → b & m ≡ b → write m b x & k ≡ x & k
  and-write_other k d h = eq_of_bits _ _ λ i. ground (
    arith,
    bit-and (write m b x) k i,
    bit-write m b x i,
    bit-and b m i,
    bit-and m k i,
    bit-and x k i,
    bit-zero i,
    ap (λ (t : ℕ). bit t i) h,
    ap (λ (t : ℕ). bit t i) d,
  )

  -- What a second write through the same mask finds there does not matter.
  pub write-write_same : (c : ℕ) → b & m ≡ b → write m c (write m b x) ≡ write m c x
  write-write_same c h = eq_of_bits _ _ λ i. ground (
    arith,
    bit-write m c (write m b x) i,
    bit-write m b x i,
    bit-write m c x i,
    bit-and b m i,
    ap (λ (t : ℕ). bit t i) h,
  )
