-- ===== src/Posix/Termios/Steps.antt =====
-- Each builder as one write of the cflag, and what else it leaves alone.
use anyserial.Base.{
  ℕ, ◌==◌, ◌≡◌, Bool, true, false, ◌&&◌, arith, if◌then◌else◌, Bool-cases, inl, inr,
}
use anyserial.Bits.{◌¦◌, ◌&~◌}
use anyserial.Bits.Digits.{bit-zero, bit-or}
use anyserial.Bits.Laws.{write, write_lem, or-write, clear-write, eq_of_bits, bit-clear}
use anyserial.Types.{ByteSize, Parity, StopBits}
use anyserial.Errors.{ok, first_ok}
use anyserial.Config.{FlowControl}
use anyserial.Posix.Termios.{
  TermiosAttrs, Constants, cmspar, rts_cts_mask, parity_flags, apply_parity, apply_byte_size,
  byte_size_bits, apply_stop_bits, apply_flow_control, apply_hangup,
}
use anyserial.Posix.Termios.Layout.{parity_mask, parity_bits, stop_bits, switch}

-- Two ways to clear and set the parity bits.
module _ (x e o m : ℕ) where
  clear-or : (x &~ (e ¦ o)) &~ m ≡ x &~ (e ¦ o ¦ m)
  clear-or = eq_of_bits _ _ λ i. ground (
    arith,
    bit-clear (x &~ (e ¦ o)) m i,
    bit-clear x (e ¦ o) i,
    bit-clear x (e ¦ o ¦ m) i,
    bit-or (e ¦ o) m i,
  )

  or-none : x ¦ 0 ≡ x
  or-none = eq_of_bits _ _ λ i. ground (arith, bit-or x 0 i, bit-zero i)

clear-none : (x m : ℕ) → m ≡ 0 → x &~ m ≡ x
clear-none x m e = rw e (eq_of_bits _ _ λ i. ground (arith, bit-clear x 0 i, bit-zero i))

module _ (t : Constants) where
  -- The cflag after the parity bits are cleared, whether CMSPAR exists or not.
  cleared_lem :
      (x : ℕ)
      → (if cmspar t == 0
          then x &~ (t.parenb ¦ t.parodd)
          else (x &~ (t.parenb ¦ t.parodd)) &~ cmspar t)
        ≡ x &~ parity_mask t
  cleared_lem x = elim (Bool-cases (cmspar t == 0)) [
    | inl absent ↦
        rw absent
          (let e : cmspar t ≡ 0 = ground arith in rw (e, or-none (t.parenb ¦ t.parodd) 0 0 0))
    | inr present ↦ rw present (clear-or x t.parenb t.parodd (cmspar t))
  ]

  -- The match sets exactly the bits of the parity.
  parity_flags-ok :
      (x : ℕ) (p : Parity) {y : ℕ} → parity_flags t x p ≡ ok y → y ≡ x ¦ parity_bits t p
  unfolding parity_flags parity_bits
  parity_flags-ok x Parity.none h = ground (arith, or-none x 0 0 0)
  parity_flags-ok x Parity.even h = ground arith
  parity_flags-ok x Parity.odd h = ground arith
  parity_flags-ok x Parity.mark h = ground arith
  parity_flags-ok x Parity.space h = ground arith

  pub apply_parity-ok :
      (a : TermiosAttrs) (p : Parity) {r : TermiosAttrs}
      → apply_parity t a p ≡ ok r
      → r ≡ record a { cflag = write (parity_mask t) (parity_bits t p) a.cflag }
  unfolding apply_parity
  apply_parity-ok a p h =
      let cleared = a.cflag &~ (t.parenb ¦ t.parodd) in
      let start = if cmspar t == 0 then cleared else cleared &~ cmspar t in
      let (y, e, q) = first_ok (parity_flags t start p) _ h in
      ground (
        arith,
        parity_flags-ok start p e,
        cleared_lem a.cflag,
        write_lem (parity_mask t) (parity_bits t p) a.cflag,
      )

  pub apply_byte_size_lem :
      (a : TermiosAttrs) (s : ByteSize)
      → apply_byte_size t a s ≡ record a { cflag = write t.csize (byte_size_bits t s) a.cflag }
  unfolding apply_byte_size
  apply_byte_size_lem a s = cc (write_lem t.csize (byte_size_bits t s) a.cflag)

  pub apply_stop_bits-ok :
      (a : TermiosAttrs) (s : StopBits) {r : TermiosAttrs}
      → apply_stop_bits t a s ≡ ok r
      → r ≡ record a { cflag = write t.cstopb (stop_bits t s) a.cflag }
  unfolding apply_stop_bits stop_bits
  apply_stop_bits-ok a StopBits.one h = ground (arith, clear-write t.cstopb a.cflag)
  apply_stop_bits-ok a StopBits.two h = ground (arith, or-write t.cstopb a.cflag)
  apply_stop_bits-ok a StopBits.one_point_five h = cc

  -- The software flow-control bits of the iflag.
  abbrev pub xon_mask : ℕ
  xon_mask = t.ixon ¦ t.ixoff ¦ t.ixany

  -- A handshake mask of 0 is not cleared: there is nothing to clear.
  handshake_lem :
      (x : ℕ) (on : Bool)
      → (on && rts_cts_mask t == 0) ≡ false
      → (let base = if rts_cts_mask t == 0 then x else x &~ rts_cts_mask t in
          if on then base ¦ rts_cts_mask t else base)
        ≡ write (rts_cts_mask t) (switch t on (rts_cts_mask t)) x
  handshake_lem x on h = ground (
    arith,
    clear-none x (rts_cts_mask t),
    clear-write (rts_cts_mask t) x,
    write_lem (rts_cts_mask t) (rts_cts_mask t) x,
  )

  pub apply_flow_control-ok :
      (a : TermiosAttrs) (f : FlowControl) {r : TermiosAttrs}
      → apply_flow_control t a f ≡ ok r
      → (f.dtr_dsr ≡ false)
        × (r ≡ record a {
          iflag = write xon_mask (switch t f.xon_xoff (t.ixon ¦ t.ixoff)) a.iflag;
          cflag = write (rts_cts_mask t) (switch t f.rts_cts (rts_cts_mask t)) a.cflag;
        })
  unfolding apply_flow_control
  apply_flow_control-ok a f h = ground (
    arith,
    handshake_lem a.cflag f.rts_cts,
    clear-write xon_mask a.iflag,
    write_lem xon_mask (t.ixon ¦ t.ixoff) a.iflag,
  )

  pub apply_hangup_lem :
      (a : TermiosAttrs) (on : Bool)
      → apply_hangup t a on ≡ record a { cflag = write t.hupcl (switch t on t.hupcl) a.cflag }
  unfolding apply_hangup
  apply_hangup_lem a true = cc (or-write t.hupcl a.cflag)
  apply_hangup_lem a false = cc (clear-write t.hupcl a.cflag)
