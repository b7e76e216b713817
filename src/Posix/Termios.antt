-- ===== src/Posix/Termios.antt =====
-- src/anyserial/_posix/termios_apply.py: pure builders over a snapshot of the termios attributes.
-- The constants of the standard `termios` module differ between platforms, so they are a
-- parameter, a `Constants` record; flag words are non-negative integers.
pub mod Layout
pub mod Merge
pub mod Steps
pub mod Build
pub mod Reference
pub mod Fields
pub mod Readback
use anyserial.Base.{
  ℕ, zero, suc, ◌==◌, Bool, true, false, ◌&&◌, not, Option, none, some, List, [], ◌∷◌, map,
  if◌then◌else◌,
}
use anyserial.Bits.{◌&◌, ◌¦◌, ◌&~◌}
use anyserial.Types.{ByteSize, Parity, StopBits}
use anyserial.Errors.{Exn, SerialClass, no_attributes, Result, ok, raise, ◌>>=◌}
use anyserial.Config.{FlowControl, SerialConfig}

-- A control character: `tcgetattr` returns bytes for some indices and ints for others.
pub data ControlChar : Type 0 where
  bytes : List ℕ → ControlChar
  int : ℕ → ControlChar

pub record TermiosAttrs : Type 0 where
  pub iflag : ℕ
  pub oflag : ℕ
  pub cflag : ℕ
  pub lflag : ℕ
  pub ispeed : ℕ
  pub ospeed : ℕ
  pub cc : List ControlChar

-- The `termios` module of the host. `none` is an attribute that the module lacks.
pub record Constants : Type 0 where
  pub ignbrk : ℕ
  pub brkint : ℕ
  pub parmrk : ℕ
  pub istrip : ℕ
  pub inlcr : ℕ
  pub igncr : ℕ
  pub icrnl : ℕ
  pub ixon : ℕ
  pub ixoff : ℕ
  pub ixany : ℕ
  pub opost : ℕ
  pub echo : ℕ
  pub echonl : ℕ
  pub icanon : ℕ
  pub isig : ℕ
  pub iexten : ℕ
  pub csize : ℕ
  pub cs5 : ℕ
  pub cs6 : ℕ
  pub cs7 : ℕ
  pub cs8 : ℕ
  pub cread : ℕ
  pub clocal : ℕ
  pub parenb : ℕ
  pub parodd : ℕ
  pub cstopb : ℕ
  pub hupcl : ℕ
  pub vmin : ℕ
  pub vtime : ℕ
  pub cmspar_attr : Option ℕ
  pub crtscts_attr : Option ℕ
  pub ccts_oflow_attr : Option ℕ
  pub crts_iflow_attr : Option ℕ
  -- `sys.platform.startswith("linux")`
  pub on_linux : Bool

-- `getattr(termios, name, 0)`
abbrev pub or_zero : Option ℕ → ℕ
or_zero none = 0
or_zero (some n) = n

-- `UnsupportedFeatureError(msg)`.
abbrev pub unsupported_feature : Exn
unsupported_feature = Exn.serial SerialClass.unsupported_feature no_attributes

-- `cc[index] = value`, which raises IndexError past the end.
unfoldable pub assign : List ControlChar → ℕ → ControlChar → Result (List ControlChar)
assign [] i v = raise Exn.index_error
assign (c ∷ cs) zero v = ok (v ∷ cs)
assign (c ∷ cs) (suc i) v = do rest ← assign cs i v; ok (c ∷ rest)

-- `0o10000000000`
abbrev pub linux_cmspar : ℕ
linux_cmspar = 0x40000000

module _ (t : Constants) where
  -- `_CMSPAR`: the attribute, or the kernel's value on Linux, or 0 where there is no such bit.
  unfoldable pub cmspar : ℕ
  cmspar =
      let found = or_zero t.cmspar_attr in
      if found == 0 then (if t.on_linux then linux_cmspar else 0) else found

  -- `_rts_cts_mask()`: one constant, or the two halves, or 0 where there is no handshake.
  unfoldable pub rts_cts_mask : ℕ
  rts_cts_mask =
      let both = or_zero t.crtscts_attr in
      let oflow = or_zero t.ccts_oflow_attr in
      let iflow = or_zero t.crts_iflow_attr in
      if not (both == 0)
      then both
      else if not (oflow == 0) && not (iflow == 0)
      then oflow ¦ iflow
      else 0

  abbrev pub iflag_clear : ℕ
  iflag_clear = t.ignbrk ¦ t.brkint ¦ t.parmrk ¦ t.istrip ¦ t.inlcr ¦ t.igncr ¦ t.icrnl ¦ t.ixon

  abbrev pub lflag_clear : ℕ
  lflag_clear = t.echo ¦ t.echonl ¦ t.icanon ¦ t.isig ¦ t.iexten

  abbrev pub cflag_clear : ℕ
  cflag_clear = t.csize ¦ t.parenb

  abbrev pub cflag_set : ℕ
  cflag_set = t.cs8 ¦ t.cread ¦ t.clocal

  unfoldable pub apply_raw_mode : TermiosAttrs → Result TermiosAttrs
  unfolding assign
  apply_raw_mode attrs = do
    first ← assign attrs.cc t.vmin (ControlChar.int 1)
    second ← assign first t.vtime (ControlChar.int 0)
    ok (record attrs {
      iflag = attrs.iflag &~ iflag_clear;
      oflag = attrs.oflag &~ t.opost;
      lflag = attrs.lflag &~ lflag_clear;
      cflag = (attrs.cflag &~ cflag_clear) ¦ cflag_set;
      cc = second;
    })

  -- `_BYTE_SIZE_BITS`
  unfoldable pub byte_size_bits : ByteSize → ℕ
  byte_size_bits ByteSize.five = t.cs5
  byte_size_bits ByteSize.six = t.cs6
  byte_size_bits ByteSize.seven = t.cs7
  byte_size_bits ByteSize.eight = t.cs8

  unfoldable pub apply_byte_size : TermiosAttrs → ByteSize → TermiosAttrs
  apply_byte_size attrs size = record attrs {
    cflag = (attrs.cflag &~ t.csize) ¦ byte_size_bits size;
  }

  -- The `match` on the parity, over the cflag with the parity bits cleared.
  unfoldable pub parity_flags : ℕ → Parity → Result ℕ
  parity_flags cflag Parity.none = ok cflag
  parity_flags cflag Parity.even = ok (cflag ¦ t.parenb)
  parity_flags cflag Parity.odd = ok (cflag ¦ (t.parenb ¦ t.parodd))
  parity_flags cflag Parity.mark =
      if cmspar == 0 then raise unsupported_feature else ok (cflag ¦ (t.parenb ¦ t.parodd ¦ cmspar))
  parity_flags cflag Parity.space =
      if cmspar == 0 then raise unsupported_feature else ok (cflag ¦ (t.parenb ¦ cmspar))

  unfoldable pub apply_parity : TermiosAttrs → Parity → Result TermiosAttrs
  unfolding parity_flags
  apply_parity attrs parity = do
    let cleared = attrs.cflag &~ (t.parenb ¦ t.parodd)
    cflag ← parity_flags (if cmspar == 0 then cleared else cleared &~ cmspar) parity
    ok (record attrs { cflag = cflag })

  unfoldable pub apply_stop_bits : TermiosAttrs → StopBits → Result TermiosAttrs
  apply_stop_bits attrs StopBits.one = ok (record attrs { cflag = attrs.cflag &~ t.cstopb })
  apply_stop_bits attrs StopBits.two = ok (record attrs { cflag = attrs.cflag ¦ t.cstopb })
  apply_stop_bits attrs StopBits.one_point_five = raise unsupported_feature

  unfoldable pub apply_flow_control : TermiosAttrs → FlowControl → Result TermiosAttrs
  apply_flow_control attrs flow =
      let cleared = attrs.iflag &~ (t.ixon ¦ t.ixoff ¦ t.ixany) in
      let iflag = if flow.xon_xoff then cleared ¦ (t.ixon ¦ t.ixoff) else cleared in
      let base = if rts_cts_mask == 0 then attrs.cflag else attrs.cflag &~ rts_cts_mask in
      if flow.rts_cts && rts_cts_mask == 0
      then raise unsupported_feature
      else if flow.dtr_dsr
      then raise unsupported_feature
      else ok (record attrs {
        iflag = iflag;
        cflag = if flow.rts_cts then base ¦ rts_cts_mask else base;
      })

  unfoldable pub apply_hangup : TermiosAttrs → Bool → TermiosAttrs
  apply_hangup attrs true = record attrs { cflag = attrs.cflag ¦ t.hupcl }
  apply_hangup attrs false = record attrs { cflag = attrs.cflag &~ t.hupcl }

  -- The builders in the order in which `_apply_config_to_fd` chains them.
  unfoldable pub build : TermiosAttrs → SerialConfig → Result TermiosAttrs
  build attrs config = do
    raw ← apply_raw_mode attrs
    with_parity ← apply_parity (apply_byte_size raw config.byte_size) config.parity
    with_stop ← apply_stop_bits with_parity config.stop_bits
    with_flow ← apply_flow_control with_stop config.flow_control
    ok (apply_hangup with_flow config.hangup_on_close)
