-- ===== src/Linux/Baudrate.antt =====
-- src/anyserial/_linux/baudrate.py: rates that have no `Bxxxx`, by `struct termios2`.
pub mod Layout
pub mod Slot
use anyserial.Base.{
  ℕ, zero, suc, ◌+◌, ltb, length, get_or, take, drop, Bool, List, [], ◌∷◌, ◌++◌, ℤ, if◌then◌else◌,
}
use anyserial.Bits.{◌¦◌, ◌&~◌}
use anyserial.Errors.{Exn, Result, ok, raise}
use anyserial.Backend.Protocol.{Call}
use anyserial.Posix.Kernel.{pure, lift, resume_with, ◌>>=◌, ◌>>◌}
use anyserial.Linux.Kernel.{LinuxKernel}
use anyserial.Linux.Rs485.{u32, u32_at, zeroes, delay_ms_max}

-- 0x802C542A
abbrev pub tcgets2 : ℕ
tcgets2 = 2150388778

-- 0x402C542B
abbrev pub tcsets2 : ℕ
tcsets2 = 1076646955

-- 0o010000
abbrev pub bother : ℕ
bother = 4096

-- 0o010017
abbrev pub cbaud : ℕ
cbaud = 4111

abbrev pub nccs2 : ℕ
nccs2 = 19

-- `_TERMIOS2_STRUCT.size`
abbrev pub termios2_size : ℕ
termios2_size = 44

pub record Termios2Attrs : Type 0 where
  pub iflag : ℕ
  pub oflag : ℕ
  pub cflag : ℕ
  pub lflag : ℕ
  pub line : ℕ
  pub cc : List ℕ
  pub ispeed : ℕ
  pub ospeed : ℕ

-- `{n}s` of the format: the bytes cut to that many, or filled up with zeros.
unfoldable pub padded : ℕ → List ℕ → List ℕ
padded zero xs = []
padded (suc n) [] = 0 ∷ padded n []
padded (suc n) (x ∷ xs) = x ∷ padded n xs

-- A value has room in an `I`.
abbrev pub too_large : ℕ → Bool
too_large n = ltb delay_ms_max n

-- `pack`
unfoldable pub pack : Bool → Termios2Attrs → Result (List ℕ)
unfolding padded
pack little a =
    if too_large a.iflag
    then raise Exn.struct_error
    else if too_large a.oflag
    then raise Exn.struct_error
    else if too_large a.cflag
    then raise Exn.struct_error
    else if too_large a.lflag
    then raise Exn.struct_error
    else if ltb 255 a.line
    then raise Exn.struct_error
    else if too_large a.ispeed
    then raise Exn.struct_error
    else if too_large a.ospeed
    then raise Exn.struct_error
    else ok (
        u32 little a.iflag
        ++ (u32 little a.oflag
            ++ (u32 little a.cflag
                ++ (u32 little a.lflag
                    ++ (a.line
                        ∷ (padded nccs2 a.cc ++ (u32 little a.ispeed ++ u32 little a.ospeed)))))))

-- `unpack`, which wants a buffer of the size of the format.
unfoldable pub unpack : Bool → List ℕ → Result Termios2Attrs
unpack little buf =
    if ltb (length buf) termios2_size
    then raise Exn.struct_error
    else if ltb termios2_size (length buf)
    then raise Exn.struct_error
    else ok (record {
      iflag = u32_at little buf 0;
      oflag = u32_at little buf 4;
      cflag = u32_at little buf 8;
      lflag = u32_at little buf 12;
      line = get_or buf 16 0;
      cc = take nccs2 (drop 17 buf);
      ispeed = u32_at little buf 36;
      ospeed = u32_at little buf 40;
    })

unfoldable pub clear_cbaud : ℕ → ℕ
clear_cbaud cflag = cflag &~ cbaud

unfoldable pub mark_bother : ℕ → ℕ
unfolding clear_cbaud
mark_bother cflag = clear_cbaud cflag ¦ bother

module _ {K : Type 0} (sys : LinuxKernel K) (little : Bool) where
  unfoldable pub read_termios2 : ℤ → Call K Termios2Attrs
  unfolding unpack
  read_termios2 fd =
      sys.ioctl_bytes fd tcgets2 (zeroes termios2_size) >>= λ buf. lift (unpack little buf)

  unfoldable pub write_termios2 : ℤ → Termios2Attrs → Call K (Unit {0})
  unfolding pack
  write_termios2 fd attrs =
      lift (pack little attrs) >>= λ payload. sys.ioctl_bytes fd tcsets2 payload >> pure tt
