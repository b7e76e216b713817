-- ===== src/Config/Validation.antt =====
-- What a validated configuration is, and how `with_changes` combines.
use anyserial.Base.{
  ◌≤◌, ◌<◌, ◌≡◌, refl, Option, none, some, ℤ, pos, negsuc, true, false, arith, to_nat,
}
use anyserial.Errors.{ok}
use anyserial.Config.{
  SerialConfig, Changes, no_changes, changed, not_positive, chunk_in_range, with_changes,
  new_baudrate, new_chunk, replaced, post_init, min_read_chunk_size, max_read_chunk_size,
}

-- A baud rate of 0 is refused, and a read chunk outside 64 bytes to 16 MiB.
pub record IsValid (c : SerialConfig) : Type 0 where
  pub positive : 0 < c.baudrate
  pub chunk_min : min_read_chunk_size ≤ c.read_chunk_size
  pub chunk_max : c.read_chunk_size ≤ max_read_chunk_size

-- Whatever object it starts from and whatever it is asked to change, a configuration that
-- `with_changes` returns is valid: its baud rate is positive and its read chunk in range.
pub with_changes-IsValid :
    (c : SerialConfig) (d : Changes) {c' : SerialConfig} → with_changes c d ≡ ok c' → IsValid c'
unfolding with_changes
with_changes-IsValid c d h = ground arith

-- The later of two requests for one field.
abbrev pub later {ℓ} : {A : Type ℓ} → Option A → Option A → Option A
later first none = first
later first (some second) = some second

-- Two calls of `with_changes` in a row, as one.
abbrev pub then : Changes → Changes → Changes
then d e = record {
  baudrate = later d.baudrate e.baudrate;
  byte_size = later d.byte_size e.byte_size;
  parity = later d.parity e.parity;
  stop_bits = later d.stop_bits e.stop_bits;
  flow_control = later d.flow_control e.flow_control;
  exclusive = later d.exclusive e.exclusive;
  hangup_on_close = later d.hangup_on_close e.hangup_on_close;
  low_latency = later d.low_latency e.low_latency;
  read_chunk_size = later d.read_chunk_size e.read_chunk_size;
  rs485 = later d.rs485 e.rs485;
  unsupported_policy = later d.unsupported_policy e.unsupported_policy;
}

changed-changed {ℓ} :
    {A : Type ℓ} (x : A) (first second : Option A)
    → changed (changed x first) second ≡ changed x (later first second)
changed-changed x first none = refl
changed-changed x first (some second) = refl

-- An integer that passed the tests is the natural number that is stored.
pos-to_nat_positive : (n : ℤ) → not_positive n ≡ false → pos (to_nat n) ≡ n
pos-to_nat_positive (pos n) h = refl
pos-to_nat_positive (negsuc n) h = cc

pos-to_nat_chunk : (n : ℤ) → chunk_in_range n ≡ true → pos (to_nat n) ≡ n
pos-to_nat_chunk (pos n) h = refl
pos-to_nat_chunk (negsuc n) h = cc

post_init-ok :
    (b k : ℤ) (c c' : SerialConfig)
    → post_init b k c ≡ ok c'
    → (not_positive b ≡ false) × (chunk_in_range k ≡ true) × (c ≡ c')
unfolding post_init
post_init-ok b k c c' h = ground arith

with_changes-accepted :
    (c : SerialConfig) (d : Changes) (c' : SerialConfig)
    → with_changes c d ≡ ok c'
    → (not_positive (new_baudrate c d) ≡ false)
      × (chunk_in_range (new_chunk c d) ≡ true)
      × (replaced c d ≡ c')
unfolding with_changes
with_changes-accepted c d c' h = post_init-ok (new_baudrate c d) (new_chunk c d) (replaced c d) c' h

-- The object that a first change builds takes a second one as the original takes both.
replaced-then :
    (c : SerialConfig) (d e : Changes)
    → pos (to_nat (new_baudrate c d)) ≡ new_baudrate c d
    → pos (to_nat (new_chunk c d)) ≡ new_chunk c d
    → with_changes (replaced c d) e ≡ with_changes c (then d e)
unfolding with_changes
replaced-then c d e p q = rw (p, q) (simp changed-changed)

-- Two successive changes are one change, in which the second request for a field wins, as soon
-- as the first of them is accepted: the same configuration, or the same error.
pub with_changes-then :
    (c : SerialConfig) (d e : Changes) {c' : SerialConfig}
    → with_changes c d ≡ ok c'
    → with_changes c' e ≡ with_changes c (then d e)
with_changes-then c d e {c'} h =
    let (positive, in_range, same) = with_changes-accepted c d c' h in
    rw (← same) (replaced-then c d e (pos-to_nat_positive _ positive) (pos-to_nat_chunk _ in_range))

-- A valid configuration is what `with_changes` with no argument returns.
pub with_changes-none : (c : SerialConfig) → IsValid c → with_changes c no_changes ≡ ok c
unfolding with_changes
with_changes-none c v = ground arith
