-- ===== src/Posix/Termios/Reference.antt =====
-- The chain of builders as one equation, errors included, and what follows from it for a port
-- that is configured more than once.
use anyserial.Base.{◌≡◌, ◌==◌, refl, Bool, true, false, not, ◌&&◌, arith, List, if◌then◌else◌}
use anyserial.Bits.{◌¦◌, ◌&~◌}
use anyserial.Bits.Laws.{write, write_lem}
use anyserial.Types.{Parity, StopBits}
use anyserial.Errors.{Exn, Result, ok, raise, ◌>>=◌}
use anyserial.Config.{FlowControl, SerialConfig}
use anyserial.Posix.Termios.{
  ControlChar, TermiosAttrs, Constants, cmspar, rts_cts_mask, unsupported_feature, apply_raw_mode,
  apply_parity, apply_stop_bits, apply_flow_control, build, iflag_clear, lflag_clear, cflag_clear,
  cflag_set,
}
use anyserial.Posix.Termios.Layout.{
  parity_mask, parity_bits, stop_bits, owned, cflag_bits, switch, IsLayout,
}
use anyserial.Posix.Termios.Steps.{
  apply_parity-ok, apply_byte_size_lem, apply_stop_bits-ok, apply_flow_control-ok, apply_hangup_lem,
  xon_mask,
}
use anyserial.Posix.Termios.Build.{raw_cc, chain-owned}

module _ (t : Constants) where
  -- Which configurations generic termios can express on this host.
  abbrev pub parity_supported : Parity → Bool
  parity_supported Parity.mark = not (cmspar t == 0)
  parity_supported Parity.space = not (cmspar t == 0)
  parity_supported _ = true

  abbrev pub stop_supported : StopBits → Bool
  stop_supported StopBits.one_point_five = false
  stop_supported _ = true

  abbrev pub flow_supported : FlowControl → Bool
  flow_supported f = not (f.rts_cts && rts_cts_mask t == 0) && not f.dtr_dsr

  abbrev pub supported : SerialConfig → Bool
  supported c =
      parity_supported c.parity && stop_supported c.stop_bits && flow_supported c.flow_control

  -- The attributes to commit: each flag word written once, the speeds as they were.
  abbrev pub target : TermiosAttrs → SerialConfig → List ControlChar → TermiosAttrs
  target a c cc = record a {
    iflag =
        write (xon_mask t) (switch t c.flow_control.xon_xoff (t.ixon ¦ t.ixoff))
          (a.iflag &~ iflag_clear t);
    oflag = a.oflag &~ t.opost;
    cflag = write (owned t) (cflag_bits t c) a.cflag;
    lflag = a.lflag &~ lflag_clear t;
    cc = cc;
  }

  abbrev pub reference : TermiosAttrs → SerialConfig → Result TermiosAttrs
  reference a c = do
    cc ← raw_cc t a.cc
    if supported c then ok (target a c cc) else raise unsupported_feature

-- A result that is decided by a test.
settle :
    (m : Result TermiosAttrs) (s : Bool) (v : TermiosAttrs)
    → ((r : TermiosAttrs) → m ≡ ok r → (s ≡ true) × (r ≡ v))
    → ((e : Exn) → m ≡ raise e → (s ≡ false) × (e ≡ unsupported_feature))
    → m ≡ (if s then ok v else raise unsupported_feature)
settle (ok r) s v f g = ground (arith, f r refl)
settle (raise e) s v f g = ground (arith, g e refl)

module _ (t : Constants) where
  parity_was_supported :
      (a : TermiosAttrs) (p : Parity) {r : TermiosAttrs}
      → apply_parity t a p ≡ ok r
      → parity_supported t p ≡ true
  unfolding apply_parity
  parity_was_supported a p h = ground arith

  parity_was_refused :
      (a : TermiosAttrs) (p : Parity) {e : Exn}
      → apply_parity t a p ≡ raise e
      → (parity_supported t p ≡ false) × (e ≡ unsupported_feature)
  unfolding apply_parity
  parity_was_refused a p h = ground arith

  -- Which way each builder goes.
  parity_way :
      (a : TermiosAttrs) (p : Parity)
      → apply_parity t a p ≡ (
          if parity_supported t p
          then ok (record a { cflag = write (parity_mask t) (parity_bits t p) a.cflag })
          else raise unsupported_feature)
  parity_way a p =
      settle (apply_parity t a p) (parity_supported t p) _
        (λ r h. (parity_was_supported a p h, apply_parity-ok t a p h))
        (λ e h. parity_was_refused a p h)

  stop_way :
      (a : TermiosAttrs) (s : StopBits)
      → apply_stop_bits t a s ≡ (
          if stop_supported t s
          then ok (record a { cflag = write t.cstopb (stop_bits t s) a.cflag })
          else raise unsupported_feature)
  unfolding apply_stop_bits
  stop_way a StopBits.one = cc (apply_stop_bits-ok t a StopBits.one refl)
  stop_way a StopBits.two = cc (apply_stop_bits-ok t a StopBits.two refl)
  stop_way a StopBits.one_point_five = refl

  flow_decides :
      (a : TermiosAttrs) (f : FlowControl) {r : TermiosAttrs}
      → apply_flow_control t a f ≡ ok r
      → flow_supported t f ≡ true
  unfolding apply_flow_control
  flow_decides a f h = ground arith

  flow_was_refused :
      (a : TermiosAttrs) (f : FlowControl) {e : Exn}
      → apply_flow_control t a f ≡ raise e
      → (flow_supported t f ≡ false) × (e ≡ unsupported_feature)
  unfolding apply_flow_control
  flow_was_refused a f h = ground arith

  flow_way :
      (a : TermiosAttrs) (f : FlowControl)
      → apply_flow_control t a f ≡ (
          if flow_supported t f
          then ok (record a {
            iflag = write (xon_mask t) (switch t f.xon_xoff (t.ixon ¦ t.ixoff)) a.iflag;
            cflag = write (rts_cts_mask t) (switch t f.rts_cts (rts_cts_mask t)) a.cflag;
          })
          else raise unsupported_feature)
  flow_way a f =
      settle (apply_flow_control t a f) (flow_supported t f) _
        (λ r h. (flow_decides a f h, (apply_flow_control-ok t a f h).1))
        (λ e h. flow_was_refused a f h)

  raw_way :
      (a : TermiosAttrs)
      → apply_raw_mode t a ≡ (do
        cc ← raw_cc t a.cc
        ok (record a {
          iflag = a.iflag &~ iflag_clear t;
          oflag = a.oflag &~ t.opost;
          lflag = a.lflag &~ lflag_clear t;
          cflag = write (cflag_clear t) (cflag_set t) a.cflag;
          cc = cc;
        }))
  unfolding apply_raw_mode raw_cc
  raw_way a = ground (arith, write_lem (cflag_clear t) (cflag_set t) a.cflag)

  -- Where the termios masks do not overlap, the chain of builders is the reference: it writes
  -- each flag word once where the platform can express the configuration, and raises
  -- UnsupportedFeatureError where it cannot, after the control characters have been set.
  pub build-reference :
      IsLayout t → (a : TermiosAttrs) (c : SerialConfig) → build t a c ≡ reference t a c
  unfolding build
  build-reference l a c =
      simp (raw_way, apply_byte_size_lem t, parity_way, stop_way, flow_way, apply_hangup_lem t)
        (ground (arith, chain-owned t l c a.cflag))
