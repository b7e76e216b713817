-- ===== src/Linux/Rs485.antt =====
-- src/anyserial/_linux/rs485.py: `struct serial_rs485`, its bytes, and the delays.
pub mod Layout
pub mod Flags
use anyserial.Base.{
  ℕ, zero, suc, ◌+◌, ◌*◌, ◌/◌, ◌%◌, ◌==◌, ltb, length, get_or, Bool, true, false, List, [], ◌∷◌,
  ◌++◌, ℤ, pos, negsuc, if◌then◌else◌,
}
use anyserial.Bits.{◌&◌, ◌¦◌, ◌&~◌}
use anyserial.Errors.{Exn, Result, ok, raise, ◌>>=◌}
use anyserial.Config.{Rs485Config, Seconds, micros, infinity, minus_infinity, nan}

abbrev pub tiocgrs485 : ℕ
tiocgrs485 = 21550

abbrev pub tiocsrs485 : ℕ
tiocsrs485 = 21551

abbrev pub ser_rs485_enabled : ℕ
ser_rs485_enabled = 1

abbrev pub ser_rs485_rts_on_send : ℕ
ser_rs485_rts_on_send = 2

abbrev pub ser_rs485_rts_after_send : ℕ
ser_rs485_rts_after_send = 4

abbrev pub ser_rs485_rx_during_tx : ℕ
ser_rs485_rx_during_tx = 16

abbrev pub struct_size : ℕ
struct_size = 32

-- `_DELAY_MS_MAX`, 0xFFFF_FFFF
abbrev pub delay_ms_max : ℕ
delay_ms_max = 4294967295

pub record Rs485State : Type 0 where
  pub flags : ℕ
  pub delay_rts_before_send : ℕ
  pub delay_rts_after_send : ℕ
  pub addr_recv : ℕ
  pub addr_dest : ℕ

-- One `I` of the format: four bytes in the machine's order.
unfoldable pub u32 : Bool → ℕ → List ℕ
u32 true n = n % 256 ∷ n / 256 % 256 ∷ n / 65536 % 256 ∷ n / 16777216 % 256 ∷ []
u32 false n = n / 16777216 % 256 ∷ n / 65536 % 256 ∷ n / 256 % 256 ∷ n % 256 ∷ []

-- The `I` at an offset.
unfoldable pub u32_at : Bool → List ℕ → ℕ → ℕ
u32_at true xs i =
    get_or xs i 0
    + get_or xs (i + 1) 0 * 256
    + get_or xs (i + 2) 0 * 65536
    + get_or xs (i + 3) 0 * 16777216
u32_at false xs i =
    get_or xs i 0 * 16777216
    + get_or xs (i + 1) 0 * 65536
    + get_or xs (i + 2) 0 * 256
    + get_or xs (i + 3) 0

-- `struct.pack` refuses a value that its format has no room for.
unfoldable pub to_bytes : Bool → Rs485State → Result (List ℕ)
to_bytes little s =
    if ltb delay_ms_max s.flags
    then raise Exn.struct_error
    else if ltb delay_ms_max s.delay_rts_before_send
    then raise Exn.struct_error
    else if ltb delay_ms_max s.delay_rts_after_send
    then raise Exn.struct_error
    else if ltb 255 s.addr_recv
    then raise Exn.struct_error
    else if ltb 255 s.addr_dest
    then raise Exn.struct_error
    else ok (
        u32 little s.flags
        ++ u32 little s.delay_rts_before_send
        ++ u32 little s.delay_rts_after_send
        ++ (s.addr_recv ∷ s.addr_dest ∷ 0 ∷ 0 ∷ [])
        ++ u32 little 0
        ++ u32 little 0
        ++ u32 little 0
        ++ u32 little 0)

unfoldable pub from_bytes : Bool → List ℕ → Result Rs485State
from_bytes little payload =
    if ltb (length payload) struct_size
    then raise Exn.value_error
    else ok (record {
      flags = u32_at little payload 0;
      delay_rts_before_send = u32_at little payload 4;
      delay_rts_after_send = u32_at little payload 8;
      addr_recv = get_or payload 12 0;
      addr_dest = get_or payload 13 0;
    })

-- `enabled`
unfoldable pub is_enabled : Rs485State → Bool
is_enabled s = ltb 0 (s.flags & ser_rs485_enabled)

-- `_seconds_to_ms`, with what `round(seconds * 1000)` gives for a positive number of microseconds: a
-- product of floats, which is rounded before `round` sees it. `round` raises OverflowError on an
-- infinity and ValueError on nan.
unfoldable pub seconds_to_ms : (ℕ → ℕ) → Seconds → Result ℕ
seconds_to_ms rounded (micros (negsuc n)) = ok 0
seconds_to_ms rounded (micros (pos n)) =
    if n == 0
    then ok 0
    else if ltb delay_ms_max (rounded n)
    then ok delay_ms_max
    else ok (rounded n)
seconds_to_ms rounded infinity = raise Exn.overflow_error
seconds_to_ms rounded minus_infinity = ok 0
seconds_to_ms rounded nan = raise Exn.value_error

-- `flags |= bit`, where a field asks for it.
abbrev or_if : Bool → ℕ → ℕ → ℕ
or_if true m x = x ¦ m
or_if false m x = x

unfoldable pub flags_of : Rs485Config → ℕ
flags_of c = or_if c.rx_during_tx ser_rs485_rx_during_tx (
    or_if c.rts_after_send ser_rs485_rts_after_send
      (or_if c.rts_on_send ser_rs485_rts_on_send (or_if c.enabled ser_rs485_enabled 0)))

unfoldable pub from_config : (ℕ → ℕ) → Rs485Config → Result Rs485State
unfolding flags_of seconds_to_ms
from_config rounded c = seconds_to_ms rounded c.delay_before_send >>= λ before.
    seconds_to_ms rounded c.delay_after_send >>= λ after. ok (record {
      flags = flags_of c;
      delay_rts_before_send = before;
      delay_rts_after_send = after;
      addr_recv = 0;
      addr_dest = 0;
    })

abbrev pub owned_mask : ℕ
owned_mask =
    ser_rs485_enabled ¦ ser_rs485_rts_on_send ¦ ser_rs485_rts_after_send ¦ ser_rs485_rx_during_tx

unfoldable pub with_flags_from : (ℕ → ℕ) → Rs485State → Rs485Config → Result Rs485State
unfolding from_config
with_flags_from rounded s c = from_config rounded c >>= λ encoded. ok (record {
  flags = (s.flags &~ owned_mask) ¦ (encoded.flags & owned_mask);
  delay_rts_before_send = encoded.delay_rts_before_send;
  delay_rts_after_send = encoded.delay_rts_after_send;
  addr_recv = s.addr_recv;
  addr_dest = s.addr_dest;
})

abbrev pub written : {K : Type 0} → Result (List ℕ) × K → Result (Unit {0}) × K
written (ok _, k) = (ok tt, k)
written (raise e, k) = (raise e, k)

-- `b"\x00" * n`
abbrev pub zeroes : ℕ → List ℕ
zeroes zero = []
zeroes (suc n) = 0 ∷ zeroes n

-- `fcntl.ioctl` with a payload: the kernel answers with the payload as it left it.
module _ {K : Type 0} (ioctl : ℤ → ℕ → List ℕ → K → Result (List ℕ) × K) (little : Bool) where
  unfoldable pub read_rs485 : ℤ → K → Result Rs485State × K
  unfolding from_bytes
  read_rs485 fd k =
      let (r, k') = ioctl fd tiocgrs485 (zeroes struct_size) k in (r >>= from_bytes little, k')

  -- The state is packed before the call.
  unfoldable pub write_packed : ℤ → Result (List ℕ) → K → Result (Unit {0}) × K
  write_packed fd (ok payload) k = written (ioctl fd tiocsrs485 payload k)
  write_packed fd (raise e) k = (raise e, k)

  unfoldable pub write_rs485 : ℤ → Rs485State → K → Result (Unit {0}) × K
  unfolding to_bytes write_packed
  write_rs485 fd s = write_packed fd (to_bytes little s)
