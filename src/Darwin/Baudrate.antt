-- ===== src/Darwin/Baudrate.antt =====
-- src/anyserial/_darwin/baudrate.py: the rate that `IOSSIOSPEED` sets.
use anyserial.Base.{ℕ, zero, suc, ◌/◌, ◌%◌, ltb, List, [], ◌∷◌, ℤ, if◌then◌else◌}
use anyserial.Errors.{Exn, Result, ok, raise}
use anyserial.Backend.Protocol.{Call}
use anyserial.Posix.Kernel.{pure, lift, ◌>>=◌, ◌>>◌}

-- 0x80085402
abbrev pub iossiospeed : ℕ
iossiospeed = 2148029442

-- So many bytes of a number, the lowest first.
unfoldable pub low_bytes : ℕ → ℕ → List ℕ
low_bytes zero n = []
low_bytes (suc size) n = n % 256 ∷ low_bytes size (n / 256)

-- `_SPEED_STRUCT.pack`: eight bytes in the order of macOS, or struct.error from 2 ** 64 on.
unfoldable pub pack_speed : ℕ → Result (List ℕ)
unfolding low_bytes
pack_speed rate =
    if ltb 18446744073709551615 rate then raise Exn.struct_error else ok (low_bytes 8 rate)

unfoldable pub set_iossiospeed :
    {K : Type 0} → (ℤ → ℕ → List ℕ → Call K (List ℕ)) → ℤ → ℕ → Call K (Unit {0})
unfolding pack_speed
set_iossiospeed ioctl_bytes fd rate =
    lift (pack_speed rate) >>= λ payload. ioctl_bytes fd iossiospeed payload >> pure tt
