-- ===== src/Posix/Termios/Readback.antt =====
-- What the kernel is told can be read back, and reconfiguring forgets the earlier configuration.
use anyserial.Base.{ℕ, zero, suc, ◌≡◌, Bool, true, false, arith, List, [], ◌∷◌, if◌then◌else◌}
use anyserial.Bits.{◌&◌, ◌¦◌, ◌&~◌}
use anyserial.Bits.Laws.{write, eq_of_bits, bit-write, bit-clear, write-write_same}
use anyserial.Errors.{ok, raise, ◌>>=◌, first_ok}
use anyserial.Config.{SerialConfig}
use anyserial.Posix.Termios.{
  ControlChar, TermiosAttrs, Constants, assign, rts_cts_mask, byte_size_bits, build,
  unsupported_feature, iflag_clear, lflag_clear,
}
use anyserial.Posix.Termios.Layout.{
  parity_mask, parity_bits, stop_bits, switch, owned, cflag_bits, IsLayout,
}
use anyserial.Posix.Termios.Merge.{Within, two-Within, zero-Within, bit-Within}
use anyserial.Posix.Termios.Fields.{union-Within, union_fields}
use anyserial.Posix.Termios.Steps.{xon_mask}
use anyserial.Posix.Termios.Build.{
  raw_cc, cflag-build, build-ok, parity_bits-Within, stop_bits-Within, switch-Within,
}
use anyserial.Posix.Termios.Reference.{supported, target, reference, build-reference}

-- The configuration, as bits of the cflag: size, parity, stop bits, handshake and hang-up read back
-- what was asked for, and the receiver is on and ignores the modem lines.
pub record Carries (t : Constants) (c : SerialConfig) (cflag : ℕ) : Type 0 where
  pub size : cflag & t.csize ≡ byte_size_bits t c.byte_size
  pub parity : cflag & parity_mask t ≡ parity_bits t c.parity
  pub stop : cflag & t.cstopb ≡ stop_bits t c.stop_bits
  pub handshake : cflag & rts_cts_mask t ≡ switch t c.flow_control.rts_cts (rts_cts_mask t)
  pub hangup : cflag & t.hupcl ≡ switch t c.hangup_on_close t.hupcl
  pub receiver : cflag & t.cread ≡ t.cread
  pub local_line : cflag & t.clocal ≡ t.clocal

module _ (t : Constants) (l : IsLayout t) (c : SerialConfig) where
  written-Carries : (x : ℕ) → Carries t c (write (owned t) (cflag_bits t c) x)
  written-Carries x =
      let (size, parity, stop, hand, hang, rd, lo) =
        union_fields t.csize (parity_mask t) t.cstopb (rts_cts_mask t) t.hupcl t.cread t.clocal
          l.apart (byte_size_bits t c.byte_size) (parity_bits t c.parity) (stop_bits t c.stop_bits)
          (switch t c.flow_control.rts_cts (rts_cts_mask t)) (switch t c.hangup_on_close t.hupcl)
          (l.sizes c.byte_size) (parity_bits-Within t c.parity) (stop_bits-Within t c.stop_bits)
          (switch-Within t c.flow_control.rts_cts _) (switch-Within t c.hangup_on_close _) x in
      record {
        size = size;
        parity = parity;
        stop = stop;
        handshake = hand;
        hangup = hang;
        receiver = rd;
        local_line = lo;
      }

  cflag_bits-Within : Within (cflag_bits t c) (owned t)
  cflag_bits-Within =
      union-Within t.csize (parity_mask t) t.cstopb (rts_cts_mask t) t.hupcl t.cread t.clocal
        l.apart (byte_size_bits t c.byte_size) (parity_bits t c.parity) (stop_bits t c.stop_bits)
        (switch t c.flow_control.rts_cts (rts_cts_mask t)) (switch t c.hangup_on_close t.hupcl)
        (l.sizes c.byte_size) (parity_bits-Within t c.parity) (stop_bits-Within t c.stop_bits)
        (switch-Within t c.flow_control.rts_cts _) (switch-Within t c.hangup_on_close _)

  -- Where the termios masks do not overlap, the attributes that are committed tell the
  -- configuration: reading each field of the cflag through its mask gives the byte size, parity,
  -- stop bits, handshake and hang-up that were asked for, with the receiver on and the modem
  -- lines ignored.
  pub build-Carries :
      (a : TermiosAttrs) {r : TermiosAttrs} → build t a c ≡ ok r → Carries t c r.cflag
  build-Carries a h = rw (cflag-build t a c l h) (written-Carries a.cflag)

xon-Within : (t : Constants) (on : Bool) → Within (switch t on (t.ixon ¦ t.ixoff)) (xon_mask t)
xon-Within t true = two-Within t.ixon t.ixoff t.ixany
xon-Within t false = zero-Within _

-- Clearing and writing twice.
module _ (x clear : ℕ) where
  clear_clear : (x &~ clear) &~ clear ≡ x &~ clear
  clear_clear =
      eq_of_bits _ _ λ i. ground (arith, bit-clear (x &~ clear) clear i, bit-clear x clear i)

module _ (x clear mask : ℕ) where
  rewrite_field :
      (b c : ℕ)
      → Within b mask
      → write mask c (write mask b (x &~ clear) &~ clear) ≡ write mask c (x &~ clear)
  rewrite_field b c h = eq_of_bits _ _ λ i. ground (
    arith,
    bit-write mask c (write mask b (x &~ clear) &~ clear) i,
    bit-write mask c (x &~ clear) i,
    bit-clear (write mask b (x &~ clear)) clear i,
    bit-write mask b (x &~ clear) i,
    bit-clear x clear i,
    bit-Within b mask i h,
  )

-- Assigning what is there changes nothing.
assign_again :
    (cc : List ControlChar) (i : ℕ) (v : ControlChar) {d : List ControlChar}
    → assign cc i v ≡ ok d
    → assign d i v ≡ ok d
unfolding assign
assign_again [] i v h = cc
assign_again (c ∷ cs) zero v h = ground arith
assign_again (c ∷ cs) (suc i) v {d} h =
    let (rest, e, q) = first_ok (assign cs i v) _ h in
    let whole : (c ∷ rest) ≡ d = ground arith in rw (← whole, assign_again cs i v e)

-- An assignment past the head goes through the head.
assign_tail :
    (c : ControlChar) (cs : List ControlChar) (i : ℕ) (v : ControlChar) {d : List ControlChar}
    → assign (c ∷ cs) (suc i) v ≡ ok d
    → (rest : List ControlChar) × (assign cs i v ≡ ok rest) × (d ≡ c ∷ rest)
unfolding assign
assign_tail c cs i v h = let (rest, e, q) = first_ok (assign cs i v) _ h in (rest, e, ground arith)

assign_head :
    (cs : List ControlChar) (j : ℕ) (v w : ControlChar) {e : List ControlChar}
    → assign (v ∷ cs) j w ≡ ok e
    → (assign e zero v >>= λ x. assign x j w) ≡ ok e
unfolding assign
assign_head cs zero v w k = ground arith
assign_head cs (suc j) v w k =
    let (rest, p, q) = assign_tail v cs j w k in rw (q, assign_again cs j w p)

-- Two assignments of the same values are those of the first time.
assign-assign :
    (cc : List ControlChar) (i j : ℕ) (v w : ControlChar) {d e : List ControlChar}
    → assign cc i v ≡ ok d
    → assign d j w ≡ ok e
    → (assign e i v >>= λ x. assign x j w) ≡ ok e
unfolding assign
assign-assign [] i j v w h k = cc
assign-assign (c ∷ cs) zero j v w {d} {e} h k =
    let q : d ≡ v ∷ cs = ground arith in assign_head cs j v w (rw q at k)
assign-assign (c ∷ cs) (suc i) zero v w {d} {e} h k =
    let (rest, p, q) = assign_tail c cs i v h in
    let r : e ≡ w ∷ rest = ground arith in rw (r, assign_again cs i v p)
assign-assign (c ∷ cs) (suc i) (suc j) v w {d} {e} h k =
    let (rest, p, q) = assign_tail c cs i v h in
    let (rest', p', q') = assign_tail c rest j w (rw q at k) in
    let (mid, m, n) = first_ok (assign rest' i v) _ (assign-assign cs i j v w p p') in rw (q', m, n)

raw_cc_again :
    (t : Constants) (cc : List ControlChar) {e : List ControlChar}
    → raw_cc t cc ≡ ok e
    → raw_cc t e ≡ ok e
unfolding raw_cc
raw_cc_again t cc h =
    let (d, p, q) = first_ok (assign cc t.vmin (ControlChar.int 1)) _ h in
    assign-assign cc t.vmin t.vtime (ControlChar.int 1) (ControlChar.int 0) p q

-- A second target does not depend on the first.
target-target :
    (t : Constants) (l : IsLayout t) (a : TermiosAttrs) (c c' : SerialConfig)
    (cc : List ControlChar)
    → target t (target t a c cc) c' cc ≡ target t a c' cc
target-target t l a c c' cc = ground (
  arith,
  rewrite_field a.iflag (iflag_clear t) (xon_mask t)
      (switch t c.flow_control.xon_xoff (t.ixon ¦ t.ixoff))
      (switch t c'.flow_control.xon_xoff (t.ixon ¦ t.ixoff)) (xon-Within t c.flow_control.xon_xoff),
  clear_clear a.oflag t.opost,
  clear_clear a.lflag (lflag_clear t),
  write-write_same (owned t) (cflag_bits t c) a.cflag (cflag_bits t c') (cflag_bits-Within t l c),
)

ok_target :
    (t : Constants) (a : TermiosAttrs) (c : SerialConfig) (cc : List ControlChar) {r : TermiosAttrs}
    → raw_cc t a.cc ≡ ok cc
    → reference t a c ≡ ok r
    → r ≡ target t a c cc
ok_target t a c cc p h = go (supported t c) (target t a c cc) (rw p at h)
  where
    go :
        (s : Bool) (v : TermiosAttrs) {r : TermiosAttrs}
        → (if s then ok v else raise unsupported_feature) ≡ ok r
        → r ≡ v
    go true v h = ground arith
    go false v h = ground arith

-- Where the termios masks do not overlap, a port that was configured before is configured as if
-- it never had been: building from the attributes that an earlier configuration left gives the
-- same attributes, or the same error, as building from those before it.
pub build-build :
    (t : Constants) (l : IsLayout t) (a : TermiosAttrs) (c c' : SerialConfig) {r : TermiosAttrs}
    → build t a c ≡ ok r
    → build t r c' ≡ build t a c'
build-build t l a c c' h =
    let (cc, p, _) = build-ok t a c h in
    let e = ok_target t a c cc p (rw (build-reference t l a c) at h) in
    rw (e, build-reference t l (target t a c cc) c', build-reference t l a c')
      (rw (p, raw_cc_again t a.cc p, target-target t l a c c' cc))
