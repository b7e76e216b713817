-- ===== src/Config.antt =====
-- src/anyserial/config.py: the immutable configuration and its validation.
-- A constructor of a frozen dataclass runs `__post_init__`, so it is a function into `Result`.
pub mod Validation
use anyserial.Base.{
  ℕ, zero, suc, ◌==◌, leb, ltb, Bool, true, false, ◌&&◌, ◌||◌, not, Option, none, some, ℤ, pos,
  negsuc, is_negative, to_nat, if◌then◌else◌,
}
use anyserial.Types.{ByteSize, Parity, StopBits, UnsupportedPolicy}
use anyserial.Errors.{Exn, SerialClass, no_attributes, Result, ok, raise}

-- Mode flags; each is independent of the others.
pub record FlowControl : Type 0 where
  pub xon_xoff : Bool
  pub rts_cts : Bool
  pub dtr_dsr : Bool

-- `FlowControl.none()`, and what `FlowControl()` builds.
abbrev pub no_flow_control : FlowControl
no_flow_control = record { xon_xoff = false; rts_cts = false; dtr_dsr = false }

-- A Python float that holds a number of seconds. A finite one is kept to the microsecond.
pub data Seconds : Type 0 where
  micros : ℤ → Seconds
  infinity minus_infinity nan : Seconds

-- `x < 0`; every comparison with nan is False.
unfoldable pub below_zero : Seconds → Bool
below_zero (micros n) = is_negative n
below_zero minus_infinity = true
below_zero _ = false

pub record Rs485Config : Type 0 where
  pub enabled : Bool
  pub rts_on_send : Bool
  pub rts_after_send : Bool
  pub delay_before_send : Seconds
  pub delay_after_send : Seconds
  pub rx_during_tx : Bool

-- `ConfigurationError(msg)`.
abbrev pub configuration_error : Exn
configuration_error = Exn.serial SerialClass.configuration_error no_attributes

-- `Rs485Config.__post_init__`.
unfoldable pub check_rs485 : Rs485Config → Result Rs485Config
unfolding below_zero
check_rs485 c =
    if below_zero c.delay_before_send
    then raise configuration_error
    else if below_zero c.delay_after_send
    then raise configuration_error
    else ok c

pub record SerialConfig : Type 0 where
  pub baudrate : ℕ
  pub byte_size : ByteSize
  pub parity : Parity
  pub stop_bits : StopBits
  pub flow_control : FlowControl
  pub exclusive : Bool
  pub hangup_on_close : Bool
  pub low_latency : Bool
  pub read_chunk_size : ℕ
  pub rs485 : Option Rs485Config
  pub unsupported_policy : UnsupportedPolicy

-- The keyword arguments of a construction or of `with_changes`: an int may be negative, and
-- `none` leaves a field as it is. `rs485 = some none` sets the field to None.
pub record Changes : Type 0 where
  pub baudrate : Option ℤ
  pub byte_size : Option ByteSize
  pub parity : Option Parity
  pub stop_bits : Option StopBits
  pub flow_control : Option FlowControl
  pub exclusive : Option Bool
  pub hangup_on_close : Option Bool
  pub low_latency : Option Bool
  pub read_chunk_size : Option ℤ
  pub rs485 : Option (Option Rs485Config)
  pub unsupported_policy : Option UnsupportedPolicy

abbrev pub no_changes : Changes
no_changes = record {
  baudrate = none;
  byte_size = none;
  parity = none;
  stop_bits = none;
  flow_control = none;
  exclusive = none;
  hangup_on_close = none;
  low_latency = none;
  read_chunk_size = none;
  rs485 = none;
  unsupported_policy = none;
}

abbrev pub min_read_chunk_size : ℕ
min_read_chunk_size = 64

abbrev pub max_read_chunk_size : ℕ
max_read_chunk_size = 16777216

-- The field defaults of `SerialConfig`.
abbrev pub default_config : SerialConfig
default_config = record {
  baudrate = 115200;
  byte_size = ByteSize.eight;
  parity = Parity.none;
  stop_bits = StopBits.one;
  flow_control = no_flow_control;
  exclusive = false;
  hangup_on_close = true;
  low_latency = false;
  read_chunk_size = 65536;
  rs485 = none;
  unsupported_policy = UnsupportedPolicy.raise;
}

abbrev pub changed {ℓ} : {A : Type ℓ} → A → Option A → A
changed old none = old
changed old (some new) = new

-- `baudrate <= 0`
abbrev pub not_positive : ℤ → Bool
not_positive (pos n) = n == 0
not_positive (negsuc n) = true

-- `_MIN_READ_CHUNK_SIZE <= read_chunk_size <= _MAX_READ_CHUNK_SIZE`
abbrev pub chunk_in_range : ℤ → Bool
chunk_in_range (pos n) = leb min_read_chunk_size n && leb n max_read_chunk_size
chunk_in_range (negsuc n) = false

-- The value of `baudrate` and of `read_chunk_size` that the new object is given.
abbrev pub new_baudrate : SerialConfig → Changes → ℤ
new_baudrate c d = changed (pos c.baudrate) d.baudrate

abbrev pub new_chunk : SerialConfig → Changes → ℤ
new_chunk c d = changed (pos c.read_chunk_size) d.read_chunk_size

-- The new object, with the integers that the validation is about to accept.
unfoldable pub replaced : SerialConfig → Changes → SerialConfig
replaced c d = record {
  baudrate = to_nat (new_baudrate c d);
  byte_size = changed c.byte_size d.byte_size;
  parity = changed c.parity d.parity;
  stop_bits = changed c.stop_bits d.stop_bits;
  flow_control = changed c.flow_control d.flow_control;
  exclusive = changed c.exclusive d.exclusive;
  hangup_on_close = changed c.hangup_on_close d.hangup_on_close;
  low_latency = changed c.low_latency d.low_latency;
  read_chunk_size = to_nat (new_chunk c d);
  rs485 = changed c.rs485 d.rs485;
  unsupported_policy = changed c.unsupported_policy d.unsupported_policy;
}

-- `SerialConfig.__post_init__`, on the two integers that it looks at.
unfoldable pub post_init : ℤ → ℤ → SerialConfig → Result SerialConfig
post_init baudrate chunk c =
    if not_positive baudrate
    then raise configuration_error
    else if not (chunk_in_range chunk)
    then raise configuration_error
    else ok c

-- `dataclasses.replace`: the fields are copied, then `__post_init__` validates the new object.
unfoldable pub with_changes : SerialConfig → Changes → Result SerialConfig
unfolding replaced post_init
with_changes c d = post_init (new_baudrate c d) (new_chunk c d) (replaced c d)

-- `SerialConfig(**fields)`: every field that is not given has its default.
unfoldable pub serial_config : Changes → Result SerialConfig
unfolding with_changes
serial_config = with_changes default_config
