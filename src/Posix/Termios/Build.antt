-- ===== src/Posix/Termios/Build.antt =====
-- The whole chain of builders against the specification of `Layout`.
use anyserial.Base.{ℕ, ◌≡◌, ◌∙◌, Bool, true, false, arith, ap, List}
use anyserial.Bits.{◌¦◌, ◌&~◌}
use anyserial.Bits.Laws.{write, write_lem}
use anyserial.Types.{ByteSize, Parity, StopBits}
use anyserial.Errors.{Result, ok, ◌>>=◌, first_ok}
use anyserial.Config.{SerialConfig}
use anyserial.Posix.Termios.{
  ControlChar, TermiosAttrs, Constants, assign, cmspar, rts_cts_mask, apply_parity, apply_byte_size,
  byte_size_bits, apply_stop_bits, apply_flow_control, apply_raw_mode, build, iflag_clear,
  lflag_clear, cflag_clear, cflag_set,
}
use anyserial.Posix.Termios.Layout.{
  parity_mask, parity_bits, stop_bits, switch, owned, cflag_bits, IsLayout,
}
use anyserial.Posix.Termios.Merge.{
  Within, writes_merge, first-Within, two-Within, outer-Within, self-Within, zero-Within,
}
use anyserial.Posix.Termios.Steps.{
  apply_parity-ok, apply_byte_size_lem, apply_stop_bits-ok, apply_flow_control-ok, apply_hangup_lem,
  xon_mask,
}

module _ (t : Constants) where
  -- The control characters of raw mode: a read returns with the first byte.
  unfoldable pub raw_cc : List ControlChar → Result (List ControlChar)
  raw_cc cc = do
    first ← assign cc t.vmin (ControlChar.int 1)
    assign first t.vtime (ControlChar.int 0)

  apply_raw_mode-ok :
      (a : TermiosAttrs) {r : TermiosAttrs}
      → apply_raw_mode t a ≡ ok r
      → (cc : List ControlChar) × (raw_cc a.cc ≡ ok cc)
        × (r ≡ record a {
          iflag = a.iflag &~ iflag_clear t;
          oflag = a.oflag &~ t.opost;
          lflag = a.lflag &~ lflag_clear t;
          cflag = write (cflag_clear t) (cflag_set t) a.cflag;
          cc = cc;
        })
  unfolding apply_raw_mode raw_cc
  apply_raw_mode-ok a h =
      let (one, p, h') = first_ok (assign a.cc t.vmin (ControlChar.int 1)) _ h in
      let (two, q, e) = first_ok (assign one t.vtime (ControlChar.int 0)) _ h' in
      (two, rw p q, ground (arith, write_lem (cflag_clear t) (cflag_set t) a.cflag))

  -- The cflag of the chain, write by write.
  abbrev pub chain : SerialConfig → ℕ → ℕ
  chain c x = write t.hupcl (switch t c.hangup_on_close t.hupcl) (
      write (rts_cts_mask t) (switch t c.flow_control.rts_cts (rts_cts_mask t)) (
        write t.cstopb (stop_bits t c.stop_bits) (
          write (parity_mask t) (parity_bits t c.parity) (
            write t.csize (byte_size_bits t c.byte_size) (write (cflag_clear t) (cflag_set t) x)))))

  -- What the chain returns, in terms of the attributes that it was given.
  pub build-ok :
      (a : TermiosAttrs) (c : SerialConfig) {r : TermiosAttrs}
      → build t a c ≡ ok r
      → (cc : List ControlChar) × (raw_cc a.cc ≡ ok cc)
        × (r ≡ record a {
          iflag =
              write
                (xon_mask t)
                (switch t c.flow_control.xon_xoff (t.ixon ¦ t.ixoff))
                (a.iflag &~ iflag_clear t);
          oflag = a.oflag &~ t.opost;
          lflag = a.lflag &~ lflag_clear t;
          cflag = chain c a.cflag;
          cc = cc;
        })
  unfolding build
  build-ok a c h =
      let (raw, p, h₁) = first_ok (apply_raw_mode t a) _ h in
      let sized = apply_byte_size t raw c.byte_size in
      let (par, q, h₂) = first_ok (apply_parity t sized c.parity) _ h₁ in
      let (stop, s, h₃) = first_ok (apply_stop_bits t par c.stop_bits) _ h₂ in
      let (flow, f, e) = first_ok (apply_flow_control t stop c.flow_control) _ h₃ in
      let (cc, ccok, rawe) = apply_raw_mode-ok a p in
      (
        cc,
        ccok,
        ground (
          arith,
          rawe,
          apply_byte_size_lem t raw c.byte_size,
          apply_parity-ok t sized c.parity q,
          apply_stop_bits-ok t par c.stop_bits s,
          apply_flow_control-ok t stop c.flow_control f,
          apply_hangup_lem t flow c.hangup_on_close,
        ),
      )

  -- What each field is given lies in its field.
  pub parity_bits-Within : (p : Parity) → Within (parity_bits t p) (parity_mask t)
  unfolding parity_bits
  parity_bits-Within Parity.none = zero-Within _
  parity_bits-Within Parity.even = first-Within t.parenb t.parodd (cmspar t)
  parity_bits-Within Parity.odd = two-Within t.parenb t.parodd (cmspar t)
  parity_bits-Within Parity.mark = self-Within _
  parity_bits-Within Parity.space = outer-Within t.parenb t.parodd (cmspar t)

  pub stop_bits-Within : (s : StopBits) → Within (stop_bits t s) t.cstopb
  unfolding stop_bits
  stop_bits-Within StopBits.one = zero-Within _
  stop_bits-Within StopBits.two = self-Within _
  stop_bits-Within StopBits.one_point_five = zero-Within _

  pub switch-Within : (on : Bool) (m : ℕ) → Within (switch t on m) m
  switch-Within true m = self-Within m
  switch-Within false m = zero-Within m

  cs8-Within : IsLayout t → Within t.cs8 t.csize
  unfolding byte_size_bits
  cs8-Within l = l.sizes ByteSize.eight

  pub chain-owned :
      IsLayout t → (c : SerialConfig) (x : ℕ) → chain c x ≡ write (owned t) (cflag_bits t c) x
  chain-owned l c x =
      writes_merge t.csize (parity_mask t) t.cstopb (rts_cts_mask t) t.hupcl t.cread t.clocal
        l.apart t.parenb t.cs8 (byte_size_bits t c.byte_size) (parity_bits t c.parity)
        (stop_bits t c.stop_bits) (switch t c.flow_control.rts_cts (rts_cts_mask t))
        (switch t c.hangup_on_close t.hupcl) (first-Within t.parenb t.parodd (cmspar t))
        (cs8-Within l) (l.sizes c.byte_size) (parity_bits-Within c.parity)
        (stop_bits-Within c.stop_bits) (switch-Within c.flow_control.rts_cts _)
        (switch-Within c.hangup_on_close _) x

  -- Where the termios masks do not overlap, the chain of builders, where it does not raise, is one
  -- masked write of the cflag: every bit that the library owns gets the value that the configuration asks for, and
  -- every other bit stays as the driver had it.
  pub cflag-build :
      (a : TermiosAttrs) (c : SerialConfig) {r : TermiosAttrs}
      → IsLayout t
      → build t a c ≡ ok r
      → r.cflag ≡ write (owned t) (cflag_bits t c) a.cflag
  cflag-build a c l h =
      let (cc, _, e) = build-ok a c h in
      ap (λ (r : TermiosAttrs). r.cflag) e ∙ chain-owned l c a.cflag
