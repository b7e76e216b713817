-- ===== src/Posix/Termios/Merge.antt =====
-- Six writes through masks that do not overlap are one write: the bit-level core of `Build`.
use anyserial.Base.{ℕ, ◌≡◌, false, not, ◌&&◌, ◌||◌, arith, ap, [], ◌∷◌}
use anyserial.Bits.{bit, ◌&◌, ◌¦◌}
use anyserial.Bits.Digits.{bit-zero, bit-and, bit-or}
use anyserial.Bits.Laws.{write, eq_of_bits, bit-write}
use anyserial.Posix.Termios.Layout.{Apart}

-- Every bit of `b` is a bit of `m`.
abbrev pub Within : ℕ → ℕ → Type 0
Within b m = b & m ≡ b

module _ (b m i : ℕ) where
  pub bit-Within : Within b m → (bit b i && bit m i) ≡ bit b i
  bit-Within h = ground (arith, bit-and b m i, ap (λ (t : ℕ). bit t i) h)

  pub bit_apart : b & m ≡ 0 → (bit b i && bit m i) ≡ false
  bit_apart h = ground (arith, bit-and b m i, bit-zero i, ap (λ (t : ℕ). bit t i) h)

module _ (size parity stop hand hang rd lo : ℕ)
    (apart : Apart (size ∷ parity ∷ stop ∷ hand ∷ hang ∷ rd ∷ lo ∷ []))
    (enable s8 sb pb tb nb gb : ℕ) (within_e : Within enable parity) (within_8 : Within s8 size)
    (within_s : Within sb size) (within_p : Within pb parity) (within_t : Within tb stop)
    (within_n : Within nb hand) (within_g : Within gb hang) where
  -- The bits after the raw, size and parity writes.
  inner3 :
      (x i : ℕ)
      → bit (write parity pb (write size sb (write (size ¦ enable) (s8 ¦ rd ¦ lo) x))) i ≡ (
          bit x i && not (bit size i) && not (bit parity i)
          || bit sb i
          || bit pb i
          || bit rd i
          || bit lo i)
  inner3 x i = ground (
    arith,
    bit-write parity pb (write size sb (write (size ¦ enable) (s8 ¦ rd ¦ lo) x)) i,
    bit-write size sb (write (size ¦ enable) (s8 ¦ rd ¦ lo) x) i,
    bit-write (size ¦ enable) (s8 ¦ rd ¦ lo) x i,
    bit-or size enable i,
    bit-or (s8 ¦ rd) lo i,
    bit-or s8 rd i,
    bit-Within enable parity i within_e,
    bit-Within s8 size i within_8,
    bit-Within sb size i within_s,
    bit-Within pb parity i within_p,
    bit_apart size parity i apart.0.0,
    bit_apart size rd i apart.0.1.1.1.1.0,
    bit_apart size lo i apart.0.1.1.1.1.1.0,
    bit_apart parity rd i apart.1.0.1.1.1.0,
    bit_apart parity lo i apart.1.0.1.1.1.1.0,
  )

  -- and after all six.
  inner6 :
      (x i : ℕ)
      → bit
          (write hang gb (
            write hand nb (
              write stop tb
                (write parity pb (write size sb (write (size ¦ enable) (s8 ¦ rd ¦ lo) x))))))
          i
        ≡ (bit x i
              && not (bit size i)
              && not (bit parity i)
              && not (bit stop i)
              && not (bit hand i)
              && not (bit hang i)
            || bit sb i
            || bit pb i
            || bit tb i
            || bit nb i
            || bit gb i
            || bit rd i
            || bit lo i)
  inner6 x i =
      let y = write parity pb (write size sb (write (size ¦ enable) (s8 ¦ rd ¦ lo) x)) in
      ground (
        arith,
        inner3 x i,
        bit-write hang gb (write hand nb (write stop tb y)) i,
        bit-write hand nb (write stop tb y) i,
        bit-write stop tb y i,
        bit-Within sb size i within_s,
        bit-Within pb parity i within_p,
        bit-Within tb stop i within_t,
        bit-Within nb hand i within_n,
        bit_apart size stop i apart.0.1.0,
        bit_apart size hand i apart.0.1.1.0,
        bit_apart size hang i apart.0.1.1.1.0,
        bit_apart size rd i apart.0.1.1.1.1.0,
        bit_apart size lo i apart.0.1.1.1.1.1.0,
        bit_apart parity stop i apart.1.0.0,
        bit_apart parity hand i apart.1.0.1.0,
        bit_apart parity hang i apart.1.0.1.1.0,
        bit_apart parity rd i apart.1.0.1.1.1.0,
        bit_apart parity lo i apart.1.0.1.1.1.1.0,
        bit_apart stop hand i apart.1.1.0.0,
        bit_apart stop hang i apart.1.1.0.1.0,
        bit_apart stop rd i apart.1.1.0.1.1.0,
        bit_apart stop lo i apart.1.1.0.1.1.1.0,
        bit_apart hand hang i apart.1.1.1.0.0,
        bit_apart hand rd i apart.1.1.1.0.1.0,
        bit_apart hand lo i apart.1.1.1.0.1.1.0,
        bit_apart hang rd i apart.1.1.1.1.0.0,
        bit_apart hang lo i apart.1.1.1.1.0.1.0,
      )

  pub writes_merge :
      (x : ℕ)
      → write hang gb (
          write hand nb (
            write stop tb
              (write parity pb (write size sb (write (size ¦ enable) (s8 ¦ rd ¦ lo) x)))))
        ≡ write (size ¦ parity ¦ stop ¦ hand ¦ hang ¦ rd ¦ lo) (sb ¦ pb ¦ tb ¦ nb ¦ gb ¦ rd ¦ lo) x
  writes_merge x = eq_of_bits _ _ λ i. ground (
    arith,
    inner6 x i,
    bit-or (size ¦ parity ¦ stop ¦ hand ¦ hang ¦ rd) lo i,
    bit-or (size ¦ parity ¦ stop ¦ hand ¦ hang) rd i,
    bit-or (size ¦ parity ¦ stop ¦ hand) hang i,
    bit-or (size ¦ parity ¦ stop) hand i,
    bit-or (size ¦ parity) stop i,
    bit-or size parity i,
    bit-or (sb ¦ pb ¦ tb ¦ nb ¦ gb ¦ rd) lo i,
    bit-or (sb ¦ pb ¦ tb ¦ nb ¦ gb) rd i,
    bit-or (sb ¦ pb ¦ tb ¦ nb) gb i,
    bit-or (sb ¦ pb ¦ tb) nb i,
    bit-or (sb ¦ pb) tb i,
    bit-or sb pb i,
    bit-write (size ¦ parity ¦ stop ¦ hand ¦ hang ¦ rd ¦ lo) (sb ¦ pb ¦ tb ¦ nb ¦ gb ¦ rd ¦ lo) x i,
  )

module _ (a b c : ℕ) where
  pub first-Within : Within a (a ¦ b ¦ c)
  first-Within =
      eq_of_bits _ _ λ i. ground (arith, bit-and a (a ¦ b ¦ c) i, bit-or (a ¦ b) c i, bit-or a b i)

  pub two-Within : Within (a ¦ b) (a ¦ b ¦ c)
  two-Within =
      eq_of_bits _ _
        λ i. ground (arith, bit-and (a ¦ b) (a ¦ b ¦ c) i, bit-or (a ¦ b) c i, bit-or a b i)

  pub outer-Within : Within (a ¦ c) (a ¦ b ¦ c)
  outer-Within = eq_of_bits _ _ λ i.
      ground (arith, bit-and (a ¦ c) (a ¦ b ¦ c) i, bit-or (a ¦ b) c i, bit-or a b i, bit-or a c i)

pub self-Within : (m : ℕ) → Within m m
self-Within m = eq_of_bits _ _ λ i. ground (arith, bit-and m m i)

pub zero-Within : (m : ℕ) → Within 0 m
zero-Within m = eq_of_bits _ _ λ i. ground (arith, bit-and 0 m i, bit-zero i)
