-- ===== src/Windows/Dcb/Decoding.antt =====
-- `read_dcb` undoes `apply_config`.
use anyserial.Base.{some, ltb, ◌==◌, ◌%◌, ◌^◌, ◌<◌, ◌≡◌, ◌&&◌, Bool, true, false, refl, arith}
use anyserial.Errors.{ok}
use anyserial.Types.{Parity, StopBits, ByteSize}
use anyserial.Config.{FlowControl, SerialConfig}
use anyserial.Windows.Dcb.{
  Dcb, Decoded, apply_config, apply_framing, apply_xon_xoff, apply_rts_cts, apply_dtr_dsr, read_dcb,
  parity_to_win32, win32_to_parity, stopbits_to_win32, win32_to_stopbits, bytesize_to_win32,
  win32_to_bytesize, f_parity_of, control_handshake,
}

-- What a configuration decodes to.
abbrev pub decoded : SerialConfig → Decoded
decoded c = record {
  baudrate = c.baudrate;
  byte_size = c.byte_size;
  parity = c.parity;
  stop_bits = c.stop_bits;
  xon_xoff = c.flow_control.xon_xoff;
  rts_cts = c.flow_control.rts_cts;
  dtr_dsr = c.flow_control.dtr_dsr;
  f_binary = 1;
  f_abort_on_error = 0;
  f_parity = f_parity_of c.parity;
}

-- The tables are inverse to one another.
win32_to_parity-parity_to_win32 : (p : Parity) → win32_to_parity (parity_to_win32 p) ≡ some p
unfolding win32_to_parity parity_to_win32
win32_to_parity-parity_to_win32 p = ground arith

win32_to_stopbits-stopbits_to_win32 :
    (s : StopBits) → win32_to_stopbits (stopbits_to_win32 s) ≡ some s
unfolding win32_to_stopbits stopbits_to_win32
win32_to_stopbits-stopbits_to_win32 s = ground arith

win32_to_bytesize-bytesize_to_win32 :
    (s : ByteSize) → win32_to_bytesize (bytesize_to_win32 s) ≡ some s
unfolding win32_to_bytesize bytesize_to_win32
win32_to_bytesize-bytesize_to_win32 s = ground arith

-- The flow control leaves the other fields alone.
abbrev Framed : SerialConfig → Dcb → Type 0
Framed c e =
    (e.baud_rate ≡ c.baudrate % 2 ^ 32)
    × (e.byte_size ≡ bytesize_to_win32 c.byte_size)
    × (e.parity ≡ parity_to_win32 c.parity)
    × (e.stop_bits ≡ stopbits_to_win32 c.stop_bits)
    × (e.f_binary ≡ 1)
    × (e.f_abort_on_error ≡ 0)
    × (e.f_parity ≡ f_parity_of c.parity)

xon_xoff-Framed :
    (c : SerialConfig) (on : Bool) (e : Dcb) → Framed c e → Framed c (apply_xon_xoff on e)
unfolding apply_xon_xoff
xon_xoff-Framed c true e h = h
xon_xoff-Framed c false e h = h

rts_cts-Framed :
    (c : SerialConfig) (on : Bool) (e : Dcb) → Framed c e → Framed c (apply_rts_cts on e)
unfolding apply_rts_cts
rts_cts-Framed c true e h = h
rts_cts-Framed c false e h = h

dtr_dsr-Framed :
    (c : SerialConfig) (on : Bool) (e : Dcb) → Framed c e → Framed c (apply_dtr_dsr on e)
unfolding apply_dtr_dsr
dtr_dsr-Framed c true e h = h
dtr_dsr-Framed c false e h = h

framing-Framed : (c : SerialConfig) (d : Dcb) → Framed c (apply_framing c d)
unfolding apply_framing
framing-Framed c d = (refl, refl, refl, refl, refl, refl, refl)

apply_config-Framed : (c : SerialConfig) (d : Dcb) → Framed c (apply_config c d)
unfolding apply_config
apply_config-Framed c d = dtr_dsr-Framed c c.flow_control.dtr_dsr _ (
    rts_cts-Framed c c.flow_control.rts_cts _
      (xon_xoff-Framed c c.flow_control.xon_xoff _ (framing-Framed c d)))

-- The three kinds of flow control do not touch one another's fields.
record Flows (f : FlowControl) (e : Dcb) : Type 0 where
  pub xon_xoff : (ltb 0 e.f_out_x && ltb 0 e.f_in_x) ≡ f.xon_xoff
  pub rts_cts : (ltb 0 e.f_outx_cts_flow && (e.f_rts_control == control_handshake)) ≡ f.rts_cts
  pub dtr_dsr : (ltb 0 e.f_outx_dsr_flow && (e.f_dtr_control == control_handshake)) ≡ f.dtr_dsr

flow-Flows :
    (f : FlowControl) (e : Dcb)
    → Flows f (apply_dtr_dsr f.dtr_dsr (apply_rts_cts f.rts_cts (apply_xon_xoff f.xon_xoff e)))
unfolding apply_xon_xoff apply_rts_cts apply_dtr_dsr
flow-Flows f e = record { xon_xoff = ground arith; rts_cts = ground arith; dtr_dsr = ground arith }

apply_config-Flows : (c : SerialConfig) (d : Dcb) → Flows c.flow_control (apply_config c d)
unfolding apply_config
apply_config-Flows c d = flow-Flows c.flow_control (apply_framing c d)

decoded_from :
    (c : SerialConfig) (e : Dcb)
    → c.baudrate < 2 ^ 32
    → Framed c e
    → Flows c.flow_control e
    → read_dcb e ≡ ok (decoded c)
unfolding read_dcb
decoded_from c e h framed flows =
    let (rate, size, parity, stop, binary, abort, checks) = framed in
    let baud : c.baudrate % 2 ^ 32 ≡ c.baudrate = omega arith in
    rw
      (
        parity,
        stop,
        size,
        rate,
        binary,
        abort,
        checks,
        flows.xon_xoff,
        flows.rts_cts,
        flows.dtr_dsr,
        win32_to_parity-parity_to_win32 c.parity,
        win32_to_stopbits-stopbits_to_win32 c.stop_bits,
        win32_to_bytesize-bytesize_to_win32 c.byte_size,
        baud,
      )
      refl

-- Whatever the DCB held before, a configuration whose baud rate has room in a DWORD decodes to
-- itself: baud rate, byte size, parity, stop bits and the three kinds of flow control, with fBinary
-- on, fAbortOnError off, and fParity on exactly where there is a parity.
pub read_dcb-apply_config :
    (c : SerialConfig) (d : Dcb)
    → c.baudrate < 2 ^ 32
    → read_dcb (apply_config c d) ≡ ok (decoded c)
read_dcb-apply_config c d h =
    decoded_from c (apply_config c d) h (apply_config-Framed c d) (apply_config-Flows c d)
