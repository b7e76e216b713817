-- ===== src/Linux/Rs485/Layout.antt =====
-- The bytes of `struct serial_rs485`, back and forth.
use anyserial.Base.{ℕ, ◌+◌, ◌*◌, ◌/◌, ◌%◌, ◌≤◌, ◌≡◌, Bool, true, false, List, ◌++◌, arith}
use anyserial.Errors.{ok, ◌>>=◌}
use anyserial.Linux.Rs485.{Rs485State, u32, u32_at, to_bytes, from_bytes, delay_ms_max}

-- Every field has room in the format.
pub record IsPacked (s : Rs485State) : Type 0 where
  pub flags_fit : s.flags ≤ delay_ms_max
  pub before_fits : s.delay_rts_before_send ≤ delay_ms_max
  pub after_fits : s.delay_rts_after_send ≤ delay_ms_max
  pub recv_fits : s.addr_recv ≤ 255
  pub dest_fits : s.addr_dest ≤ 255

pub little_bytes :
    (n : ℕ)
    → n ≤ delay_ms_max
    → n % 256 + n / 256 % 256 * 256 + n / 65536 % 256 * 65536 + n / 16777216 % 256 * 16777216 ≡ n
little_bytes n h = omega arith

pub big_bytes :
    (n : ℕ)
    → n ≤ delay_ms_max
    → n / 16777216 % 256 * 16777216 + n / 65536 % 256 * 65536 + n / 256 % 256 * 256 + n % 256 ≡ n
big_bytes n h = omega arith

-- A state whose fields have room in the format packs, in either byte order, and unpacks to itself,
-- whatever bytes follow it.
pub to_bytes-from_bytes :
    (little : Bool) (s : Rs485State)
    → IsPacked s
    → (ys : List ℕ) → (to_bytes little s >>= λ xs. from_bytes little (xs ++ ys)) ≡ ok s
unfolding to_bytes from_bytes u32 u32_at
to_bytes-from_bytes true s h ys = ground (
  arith,
  little_bytes s.flags h.flags_fit,
  little_bytes s.delay_rts_before_send h.before_fits,
  little_bytes s.delay_rts_after_send h.after_fits,
  h.recv_fits,
  h.dest_fits,
)
to_bytes-from_bytes false s h ys = ground (
  arith,
  big_bytes s.flags h.flags_fit,
  big_bytes s.delay_rts_before_send h.before_fits,
  big_bytes s.delay_rts_after_send h.after_fits,
  h.recv_fits,
  h.dest_fits,
)

-- Only such a state packs.
pub to_bytes-IsPacked :
    (little : Bool) (s : Rs485State) (xs : List ℕ) → to_bytes little s ≡ ok xs → IsPacked s
unfolding to_bytes
to_bytes-IsPacked little s xs h = record {
  flags_fit = ground arith;
  before_fits = ground arith;
  after_fits = ground arith;
  recv_fits = ground arith;
  dest_fits = ground arith;
}
