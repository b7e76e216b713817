-- ===== src/Types.antt =====
-- src/anyserial/_types.py: the core enums and small records of the public API.
use anyserial.Base.{Bool}

pub data ByteSize : Type 0 where
  five six seven eight : ByteSize

pub data Parity : Type 0 where
  none odd even mark space : Parity

pub data StopBits : Type 0 where
  one one_point_five two : StopBits

pub data Capability : Type 0 where
  supported unsupported unknown : Capability

pub data UnsupportedPolicy : Type 0 where
  raise warn ignore : UnsupportedPolicy

-- The input modem-status lines.
pub record ModemLines : Type 0 where
  pub cts : Bool
  pub dsr : Bool
  pub ri : Bool
  pub cd : Bool

-- The output control lines driven by the host.
pub record ControlLines : Type 0 where
  pub rts : Bool
  pub dtr : Bool

pub record CommEvent : Type 0 where
  pub cts_changed : Bool
  pub dsr_changed : Bool
  pub rlsd_changed : Bool
  pub ring : Bool
  pub error : Bool
  pub break_received : Bool
