-- ===== src/Posix/Termios/Fields.antt =====
-- Seven fields of one word that do not overlap, each given bits of its own: what a read through
-- the mask of a field finds.
use anyserial.Base.{ℕ, ◌≡◌, ◌||◌, arith, [], ◌∷◌}
use anyserial.Bits.{bit, ◌&◌, ◌¦◌}
use anyserial.Bits.Digits.{bit-and, bit-or}
use anyserial.Bits.Laws.{write, eq_of_bits, bit-write}
use anyserial.Posix.Termios.Layout.{Apart}
use anyserial.Posix.Termios.Merge.{Within, bit-Within, bit_apart}

-- The seven fields of the cflag, each given bits of its own.
module _ (size parity stop hand hang rd lo : ℕ)
    (apart : Apart (size ∷ parity ∷ stop ∷ hand ∷ hang ∷ rd ∷ lo ∷ [])) (sb pb tb nb gb : ℕ)
    (within_s : Within sb size) (within_p : Within pb parity) (within_t : Within tb stop)
    (within_n : Within nb hand) (within_g : Within gb hang) where
  abbrev union : ℕ
  union = sb ¦ pb ¦ tb ¦ nb ¦ gb ¦ rd ¦ lo

  abbrev every : ℕ
  every = size ¦ parity ¦ stop ¦ hand ¦ hang ¦ rd ¦ lo

  bit-union :
      (i : ℕ)
      → bit union i
        ≡ (bit sb i || bit pb i || bit tb i || bit nb i || bit gb i || bit rd i || bit lo i)
  bit-union i = ground (
    arith,
    bit-or (sb ¦ pb ¦ tb ¦ nb ¦ gb ¦ rd) lo i,
    bit-or (sb ¦ pb ¦ tb ¦ nb ¦ gb) rd i,
    bit-or (sb ¦ pb ¦ tb ¦ nb) gb i,
    bit-or (sb ¦ pb ¦ tb) nb i,
    bit-or (sb ¦ pb) tb i,
    bit-or sb pb i,
  )

  bit-every :
      (i : ℕ)
      → bit every i ≡ (
          bit size i
          || bit parity i
          || bit stop i
          || bit hand i
          || bit hang i
          || bit rd i
          || bit lo i)
  bit-every i = ground (
    arith,
    bit-or (size ¦ parity ¦ stop ¦ hand ¦ hang ¦ rd) lo i,
    bit-or (size ¦ parity ¦ stop ¦ hand ¦ hang) rd i,
    bit-or (size ¦ parity ¦ stop ¦ hand) hang i,
    bit-or (size ¦ parity ¦ stop) hand i,
    bit-or (size ¦ parity) stop i,
    bit-or size parity i,
  )

  pub union-Within : Within union every
  union-Within = eq_of_bits _ _ λ i. ground (
    arith,
    bit-and union every i,
    bit-union i,
    bit-every i,
    bit-Within sb size i within_s,
    bit-Within pb parity i within_p,
    bit-Within tb stop i within_t,
    bit-Within nb hand i within_n,
    bit-Within gb hang i within_g,
  )

  module _ (x : ℕ) where
    and_size : write every union x & size ≡ sb
    and_size = eq_of_bits _ _ λ i. ground (
      arith,
      bit-and (write every union x) size i,
      bit-write every union x i,
      bit-union i,
      bit-every i,
      bit-Within sb size i within_s,
      bit-Within pb parity i within_p,
      bit-Within tb stop i within_t,
      bit-Within nb hand i within_n,
      bit-Within gb hang i within_g,
      bit_apart size parity i apart.0.0,
      bit_apart size stop i apart.0.1.0,
      bit_apart size hand i apart.0.1.1.0,
      bit_apart size hang i apart.0.1.1.1.0,
      bit_apart size rd i apart.0.1.1.1.1.0,
      bit_apart size lo i apart.0.1.1.1.1.1.0,
    )

    and_parity : write every union x & parity ≡ pb
    and_parity = eq_of_bits _ _ λ i. ground (
      arith,
      bit-and (write every union x) parity i,
      bit-write every union x i,
      bit-union i,
      bit-every i,
      bit-Within sb size i within_s,
      bit-Within pb parity i within_p,
      bit-Within tb stop i within_t,
      bit-Within nb hand i within_n,
      bit-Within gb hang i within_g,
      bit_apart size parity i apart.0.0,
      bit_apart parity stop i apart.1.0.0,
      bit_apart parity hand i apart.1.0.1.0,
      bit_apart parity hang i apart.1.0.1.1.0,
      bit_apart parity rd i apart.1.0.1.1.1.0,
      bit_apart parity lo i apart.1.0.1.1.1.1.0,
    )

    and_stop : write every union x & stop ≡ tb
    and_stop = eq_of_bits _ _ λ i. ground (
      arith,
      bit-and (write every union x) stop i,
      bit-write every union x i,
      bit-union i,
      bit-every i,
      bit-Within sb size i within_s,
      bit-Within pb parity i within_p,
      bit-Within tb stop i within_t,
      bit-Within nb hand i within_n,
      bit-Within gb hang i within_g,
      bit_apart size stop i apart.0.1.0,
      bit_apart parity stop i apart.1.0.0,
      bit_apart stop hand i apart.1.1.0.0,
      bit_apart stop hang i apart.1.1.0.1.0,
      bit_apart stop rd i apart.1.1.0.1.1.0,
      bit_apart stop lo i apart.1.1.0.1.1.1.0,
    )

    and_hand : write every union x & hand ≡ nb
    and_hand = eq_of_bits _ _ λ i. ground (
      arith,
      bit-and (write every union x) hand i,
      bit-write every union x i,
      bit-union i,
      bit-every i,
      bit-Within sb size i within_s,
      bit-Within pb parity i within_p,
      bit-Within tb stop i within_t,
      bit-Within nb hand i within_n,
      bit-Within gb hang i within_g,
      bit_apart size hand i apart.0.1.1.0,
      bit_apart parity hand i apart.1.0.1.0,
      bit_apart stop hand i apart.1.1.0.0,
      bit_apart hand hang i apart.1.1.1.0.0,
      bit_apart hand rd i apart.1.1.1.0.1.0,
      bit_apart hand lo i apart.1.1.1.0.1.1.0,
    )

    and_hang : write every union x & hang ≡ gb
    and_hang = eq_of_bits _ _ λ i. ground (
      arith,
      bit-and (write every union x) hang i,
      bit-write every union x i,
      bit-union i,
      bit-every i,
      bit-Within sb size i within_s,
      bit-Within pb parity i within_p,
      bit-Within tb stop i within_t,
      bit-Within nb hand i within_n,
      bit-Within gb hang i within_g,
      bit_apart size hang i apart.0.1.1.1.0,
      bit_apart parity hang i apart.1.0.1.1.0,
      bit_apart stop hang i apart.1.1.0.1.0,
      bit_apart hand hang i apart.1.1.1.0.0,
      bit_apart hang rd i apart.1.1.1.1.0.0,
      bit_apart hang lo i apart.1.1.1.1.0.1.0,
    )

    and_rd : write every union x & rd ≡ rd
    and_rd = eq_of_bits _ _ λ i. ground (
      arith,
      bit-and (write every union x) rd i,
      bit-write every union x i,
      bit-union i,
      bit-every i,
      bit-Within sb size i within_s,
      bit-Within pb parity i within_p,
      bit-Within tb stop i within_t,
      bit-Within nb hand i within_n,
      bit-Within gb hang i within_g,
      bit_apart size rd i apart.0.1.1.1.1.0,
      bit_apart parity rd i apart.1.0.1.1.1.0,
      bit_apart stop rd i apart.1.1.0.1.1.0,
      bit_apart hand rd i apart.1.1.1.0.1.0,
      bit_apart hang rd i apart.1.1.1.1.0.0,
      bit_apart rd lo i apart.1.1.1.1.1.0.0,
    )

    and_lo : write every union x & lo ≡ lo
    and_lo = eq_of_bits _ _ λ i. ground (
      arith,
      bit-and (write every union x) lo i,
      bit-write every union x i,
      bit-union i,
      bit-every i,
      bit-Within sb size i within_s,
      bit-Within pb parity i within_p,
      bit-Within tb stop i within_t,
      bit-Within nb hand i within_n,
      bit-Within gb hang i within_g,
      bit_apart size lo i apart.0.1.1.1.1.1.0,
      bit_apart parity lo i apart.1.0.1.1.1.1.0,
      bit_apart stop lo i apart.1.1.0.1.1.1.0,
      bit_apart hand lo i apart.1.1.1.0.1.1.0,
      bit_apart hang lo i apart.1.1.1.1.0.1.0,
      bit_apart rd lo i apart.1.1.1.1.1.0.0,
    )

    pub union_fields :
        (write every union x & size ≡ sb)
        × (write every union x & parity ≡ pb)
        × (write every union x & stop ≡ tb)
        × (write every union x & hand ≡ nb)
        × (write every union x & hang ≡ gb)
        × (write every union x & rd ≡ rd)
        × (write every union x & lo ≡ lo)
    union_fields = (and_size, and_parity, and_stop, and_hand, and_hang, and_rd, and_lo)
