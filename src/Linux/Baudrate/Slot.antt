-- ===== src/Linux/Baudrate/Slot.antt =====
-- The slot of a cflag that holds the rate.
use anyserial.Base.{ℕ, ◌≡◌, ◌∙◌, sym, refl}
use anyserial.Bits.{◌&◌, ◌&~◌}
use anyserial.Bits.Laws.{write, write_lem, and-write, clear-write, write-write_same}
use anyserial.Linux.Baudrate.{cbaud, bother, clear_cbaud, mark_bother}

mark_bother-write : (cflag : ℕ) → mark_bother cflag ≡ write cbaud bother cflag
unfolding mark_bother clear_cbaud
mark_bother-write cflag = write_lem cbaud bother cflag

-- The slot says BOTHER, whatever rate was in it.
pub mark_bother-and : (cflag : ℕ) → mark_bother cflag & cbaud ≡ bother
mark_bother-and cflag = rw (mark_bother-write cflag) (and-write cbaud bother cflag cbaud refl)

-- Every other bit is as it was.
pub mark_bother-clear : (cflag : ℕ) → mark_bother cflag &~ cbaud ≡ cflag &~ cbaud
mark_bother-clear cflag = rw (mark_bother-write cflag) (
    clear-write cbaud (write cbaud bother cflag)
    ∙ write-write_same cbaud bother cflag 0 refl
    ∙ sym (clear-write cbaud cflag))
