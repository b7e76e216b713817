-- ===== src/Posix/Termios/Layout.antt =====
-- A specification of the cflag, with no reference to the builders: the bits that the library owns,
-- what it writes there, and what a sane `termios` module looks like.
use anyserial.Base.{ℕ, ◌≡◌, Bool, List, [], ◌∷◌, if◌then◌else◌}
use anyserial.Bits.{◌&◌, ◌¦◌}
use anyserial.Types.{ByteSize, Parity, StopBits}
use anyserial.Config.{SerialConfig}
use anyserial.Posix.Termios.{Constants, cmspar, rts_cts_mask, byte_size_bits}

-- No two masks of the list have a common bit.
abbrev pub ApartFrom : ℕ → List ℕ → Type 0
ApartFrom m [] = Unit
ApartFrom m (k ∷ ks) = (m & k ≡ 0) × ApartFrom m ks

abbrev pub Apart : List ℕ → Type 0
Apart [] = Unit
Apart (m ∷ ms) = ApartFrom m ms × Apart ms

module _ (t : Constants) where
  abbrev pub parity_mask : ℕ
  parity_mask = t.parenb ¦ t.parodd ¦ cmspar t

  -- The bits of a parity within that mask.
  unfoldable pub parity_bits : Parity → ℕ
  parity_bits Parity.none = 0
  parity_bits Parity.even = t.parenb
  parity_bits Parity.odd = t.parenb ¦ t.parodd
  parity_bits Parity.mark = t.parenb ¦ t.parodd ¦ cmspar t
  parity_bits Parity.space = t.parenb ¦ cmspar t

  unfoldable pub stop_bits : StopBits → ℕ
  stop_bits StopBits.one = 0
  stop_bits StopBits.two = t.cstopb
  stop_bits StopBits.one_point_five = 0

  abbrev pub switch : Bool → ℕ → ℕ
  switch on mask = if on then mask else 0

  -- The cflag bits that a configuration decides.
  abbrev pub owned : ℕ
  owned = t.csize ¦ parity_mask ¦ t.cstopb ¦ rts_cts_mask t ¦ t.hupcl ¦ t.cread ¦ t.clocal

  -- What it decides: size, parity, stop bits, handshake and hang-up, and always a receiver that
  -- ignores the modem lines.
  abbrev pub cflag_bits : SerialConfig → ℕ
  cflag_bits c =
      byte_size_bits t c.byte_size
      ¦ parity_bits c.parity
      ¦ stop_bits c.stop_bits
      ¦ switch c.flow_control.rts_cts (rts_cts_mask t)
      ¦ switch c.hangup_on_close t.hupcl
      ¦ t.cread
      ¦ t.clocal

  -- Documented behaviour of the `termios` module: its cflag masks do not overlap, and each size
  -- is a value of the CSIZE field.
  pub record IsLayout : Type 0 where
    pub apart :
        Apart
          (t.csize ∷ parity_mask ∷ t.cstopb ∷ rts_cts_mask t ∷ t.hupcl ∷ t.cread ∷ t.clocal ∷ [])
    pub sizes : (s : ByteSize) → byte_size_bits t s & t.csize ≡ byte_size_bits t s
