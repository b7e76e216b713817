-- ===== src/Windows/Dcb.antt =====
-- src/anyserial/_windows/dcb.py: a SerialConfig as a Win32 DCB, and back.
pub mod Decoding
use anyserial.Base.{
  ℕ, ◌%◌, ◌^◌, ◌==◌, ltb, Bool, true, false, ◌&&◌, Option, none, some, if◌then◌else◌,
}
use anyserial.Types.{ByteSize, Parity, StopBits}
use anyserial.Errors.{Exn, SerialClass, no_attributes, Result, ok, raise, ◌>>=◌}
use anyserial.Config.{SerialConfig, FlowControl}

-- The DCB of `_win32.py`: a field holds what ctypes stores there, a count or a bit field as a
-- number and a character as its code.
pub record Dcb : Type 0 where
  pub dcb_length : ℕ
  pub baud_rate : ℕ
  pub f_binary : ℕ
  pub f_parity : ℕ
  pub f_outx_cts_flow : ℕ
  pub f_outx_dsr_flow : ℕ
  pub f_dtr_control : ℕ
  pub f_dsr_sensitivity : ℕ
  pub f_tx_continue_on_xoff : ℕ
  pub f_out_x : ℕ
  pub f_in_x : ℕ
  pub f_error_char : ℕ
  pub f_null : ℕ
  pub f_rts_control : ℕ
  pub f_abort_on_error : ℕ
  pub f_dummy2 : ℕ
  pub w_reserved : ℕ
  pub xon_lim : ℕ
  pub xoff_lim : ℕ
  pub byte_size : ℕ
  pub parity : ℕ
  pub stop_bits : ℕ
  pub xon_char : ℕ
  pub xoff_char : ℕ
  pub error_char : ℕ
  pub eof_char : ℕ
  pub evt_char : ℕ
  pub w_reserved1 : ℕ

-- `sizeof(w.DCB)`, packed
abbrev pub sizeof_dcb : ℕ
sizeof_dcb = 28

-- RTS_CONTROL_ENABLE and DTR_CONTROL_ENABLE
abbrev pub control_enable : ℕ
control_enable = 1

-- RTS_CONTROL_HANDSHAKE and DTR_CONTROL_HANDSHAKE
abbrev pub control_handshake : ℕ
control_handshake = 2

unfoldable pub parity_to_win32 : Parity → ℕ
parity_to_win32 Parity.none = 0
parity_to_win32 Parity.odd = 1
parity_to_win32 Parity.even = 2
parity_to_win32 Parity.mark = 3
parity_to_win32 Parity.space = 4

unfoldable pub win32_to_parity : ℕ → Option Parity
win32_to_parity n =
    if n == 0
    then some Parity.none
    else if n == 1
    then some Parity.odd
    else if n == 2
    then some Parity.even
    else if n == 3
    then some Parity.mark
    else if n == 4
    then some Parity.space
    else none

unfoldable pub stopbits_to_win32 : StopBits → ℕ
stopbits_to_win32 StopBits.one = 0
stopbits_to_win32 StopBits.one_point_five = 1
stopbits_to_win32 StopBits.two = 2

unfoldable pub win32_to_stopbits : ℕ → Option StopBits
win32_to_stopbits n =
    if n == 0
    then some StopBits.one
    else if n == 1
    then some StopBits.one_point_five
    else if n == 2
    then some StopBits.two
    else none

unfoldable pub bytesize_to_win32 : ByteSize → ℕ
bytesize_to_win32 ByteSize.five = 5
bytesize_to_win32 ByteSize.six = 6
bytesize_to_win32 ByteSize.seven = 7
bytesize_to_win32 ByteSize.eight = 8

unfoldable pub win32_to_bytesize : ℕ → Option ByteSize
win32_to_bytesize n =
    if n == 5
    then some ByteSize.five
    else if n == 6
    then some ByteSize.six
    else if n == 7
    then some ByteSize.seven
    else if n == 8
    then some ByteSize.eight
    else none

abbrev f_parity_of : Parity → ℕ
f_parity_of Parity.none = 0
f_parity_of _ = 1

-- The fields that do not depend on the flow control.
unfoldable pub apply_framing : SerialConfig → Dcb → Dcb
unfolding bytesize_to_win32 parity_to_win32 stopbits_to_win32
apply_framing c d = record d {
  dcb_length = sizeof_dcb;
  baud_rate = c.baudrate % 2 ^ 32;
  byte_size = bytesize_to_win32 c.byte_size;
  parity = parity_to_win32 c.parity;
  stop_bits = stopbits_to_win32 c.stop_bits;
  f_binary = 1;
  f_abort_on_error = 0;
  f_null = 0;
  f_error_char = 0;
  f_dsr_sensitivity = 0;
  f_tx_continue_on_xoff = 0;
  f_parity = f_parity_of c.parity;
}

unfoldable pub apply_xon_xoff : Bool → Dcb → Dcb
apply_xon_xoff true d = record d {
  f_out_x = 1;
  f_in_x = 1;
  xon_char = 17;
  xoff_char = 19;
  xon_lim = 2048;
  xoff_lim = 512;
}
apply_xon_xoff false d = record d { f_out_x = 0; f_in_x = 0 }

unfoldable pub apply_rts_cts : Bool → Dcb → Dcb
apply_rts_cts true d = record d { f_outx_cts_flow = 1; f_rts_control = control_handshake }
apply_rts_cts false d = record d { f_outx_cts_flow = 0; f_rts_control = control_enable }

unfoldable pub apply_dtr_dsr : Bool → Dcb → Dcb
apply_dtr_dsr true d = record d { f_outx_dsr_flow = 1; f_dtr_control = control_handshake }
apply_dtr_dsr false d = record d { f_outx_dsr_flow = 0; f_dtr_control = control_enable }

unfoldable pub apply_config : SerialConfig → Dcb → Dcb
unfolding apply_framing apply_xon_xoff apply_rts_cts apply_dtr_dsr
apply_config c d = apply_dtr_dsr c.flow_control.dtr_dsr (
    apply_rts_cts c.flow_control.rts_cts
      (apply_xon_xoff c.flow_control.xon_xoff (apply_framing c d)))

-- `w.DCB()`: a zeroed struct.
abbrev zeroed : Dcb
zeroed = record {
  dcb_length = 0;
  baud_rate = 0;
  f_binary = 0;
  f_parity = 0;
  f_outx_cts_flow = 0;
  f_outx_dsr_flow = 0;
  f_dtr_control = 0;
  f_dsr_sensitivity = 0;
  f_tx_continue_on_xoff = 0;
  f_out_x = 0;
  f_in_x = 0;
  f_error_char = 0;
  f_null = 0;
  f_rts_control = 0;
  f_abort_on_error = 0;
  f_dummy2 = 0;
  w_reserved = 0;
  xon_lim = 0;
  xoff_lim = 0;
  byte_size = 0;
  parity = 0;
  stop_bits = 0;
  xon_char = 0;
  xoff_char = 0;
  error_char = 0;
  eof_char = 0;
  evt_char = 0;
  w_reserved1 = 0;
}

unfoldable pub build_dcb : SerialConfig → Dcb
unfolding apply_config
build_dcb c = apply_config c zeroed

-- The dict that `read_dcb` returns.
pub record Decoded : Type 0 where
  pub baudrate : ℕ
  pub byte_size : ByteSize
  pub parity : Parity
  pub stop_bits : StopBits
  pub xon_xoff : Bool
  pub rts_cts : Bool
  pub dtr_dsr : Bool
  pub f_binary : ℕ
  pub f_abort_on_error : ℕ
  pub f_parity : ℕ

-- A value that the table does not have.
abbrev or_unknown {ℓ} : {A : Type ℓ} → Option A → Result A
or_unknown none = raise (Exn.serial SerialClass.unsupported_configuration no_attributes)
or_unknown (some a) = ok a

unfoldable pub read_dcb : Dcb → Result Decoded
unfolding win32_to_parity win32_to_stopbits win32_to_bytesize
read_dcb d = or_unknown (win32_to_parity d.parity) >>= λ parity.
    or_unknown (win32_to_stopbits d.stop_bits) >>= λ stop_bits.
    or_unknown (win32_to_bytesize d.byte_size) >>= λ byte_size. ok (record {
      baudrate = d.baud_rate;
      byte_size = byte_size;
      parity = parity;
      stop_bits = stop_bits;
      xon_xoff = ltb 0 d.f_out_x && ltb 0 d.f_in_x;
      rts_cts = ltb 0 d.f_outx_cts_flow && (d.f_rts_control == control_handshake);
      dtr_dsr = ltb 0 d.f_outx_dsr_flow && (d.f_dtr_control == control_handshake);
      f_binary = d.f_binary;
      f_abort_on_error = d.f_abort_on_error;
      f_parity = d.f_parity;
    })
