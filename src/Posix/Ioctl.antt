-- ===== src/Posix/Ioctl.antt =====
-- src/anyserial/_posix/ioctl.py: queue depths, modem and control lines, and BREAK.
-- `fcntl.ioctl` with a packed int is a parameter: it gets the descriptor, the request and the int,
-- and answers with the int that the kernel left, on a kernel state. The request codes and masks
-- that the `termios` module may lack are a record, in which each fits in the int.
pub mod Lines
use anyserial.Base.{
  ℕ, ◌==◌, ltb, Bool, true, false, not, ◌&&◌, Option, none, some, ℤ, if◌then◌else◌,
}
use anyserial.Bits.{◌&◌, ◌¦◌}
use anyserial.Types.{ModemLines, ControlLines}
use anyserial.Errors.{Exn, Result, ok, raise, ◌>>=◌}
use anyserial.Posix.Termios.{or_zero, unsupported_feature}

pub record Requests : Type 0 where
  pub tiocinq_attr : Option ℕ
  pub fionread_attr : Option ℕ
  pub tiocoutq_attr : Option ℕ
  pub tiocmget_attr : Option ℕ
  pub tiocmbis_attr : Option ℕ
  pub tiocmbic_attr : Option ℕ
  pub tiocsbrk_attr : Option ℕ
  pub tioccbrk_attr : Option ℕ
  pub tiocm_rts : ℕ
  pub tiocm_dtr : ℕ
  pub tiocm_cts : ℕ
  pub tiocm_dsr : ℕ
  pub tiocm_ri : ℕ
  pub tiocm_car_attr : Option ℕ
  pub tiocm_cd_attr : Option ℕ
  -- `sys.platform.startswith("linux")`, and a BSD or macOS
  pub is_linux : Bool
  pub is_bsd_family : Bool

-- The Python `or` of two attributes: an absent one and a 0 are both falsy.
abbrev pub or_attr : Option ℕ → Option ℕ → Option ℕ
or_attr none second = second
or_attr (some n) second = if n == 0 then second else some n

-- `_require`
unfoldable pub require : Option ℕ → Result ℕ
require none = raise unsupported_feature
require (some req) = ok req

-- `bool(bits & mask)`
abbrev pub has : ℕ → ℕ → Bool
has bits mask = not (bits & mask == 0)

abbrev pub on_value {ℓ} : {A : Type ℓ} {K : Type 0} → (ℕ → A) → Result ℕ × K → Result A × K
on_value f (ok n, k) = (ok (f n), k)
on_value f (raise e, k) = (raise e, k)

abbrev pub as_done : {K : Type 0} → Result ℕ × K → Result (Unit {0}) × K
as_done (ok n, k) = (ok tt, k)
as_done (raise e, k) = (raise e, k)

-- The mask of a line that is asked to be `on`.
abbrev pub asked : Bool → Option Bool → ℕ → ℕ
asked on none mask = 0
asked true (some true) mask = mask
asked true (some false) mask = 0
asked false (some true) mask = 0
asked false (some false) mask = mask

module _ (n : Requests) where
  -- `_TIOCINQ`
  abbrev pub tiocinq : Option ℕ
  tiocinq = or_attr n.tiocinq_attr n.fionread_attr

  -- `_TIOCM_CD`
  abbrev pub tiocm_cd : ℕ
  tiocm_cd = or_zero (or_attr n.tiocm_car_attr n.tiocm_cd_attr)

  -- What `_break_request` falls back on.
  abbrev fallback : Bool → Option ℕ
  fallback on =
      if n.is_linux
      then some (if on then 0x5427 else 0x5428)
      else if n.is_bsd_family
      then some (if on then 0x2000747B else 0x2000747A)
      else none

  abbrev or_fallback : Bool → Option ℕ → Option ℕ
  or_fallback on none = fallback on
  or_fallback on (some req) = some req

  unfoldable pub break_request : Bool → Option ℕ
  break_request on = or_fallback on (if on then n.tiocsbrk_attr else n.tioccbrk_attr)

  abbrev pub set_mask : Option Bool → Option Bool → ℕ
  set_mask rts dtr = asked true rts n.tiocm_rts ¦ asked true dtr n.tiocm_dtr

  abbrev pub clear_mask : Option Bool → Option Bool → ℕ
  clear_mask rts dtr = asked false rts n.tiocm_rts ¦ asked false dtr n.tiocm_dtr

  module _ {K : Type 0} (ioctl : ℤ → ℕ → ℕ → K → Result ℕ × K) where
    -- A call whose request code may be missing.
    unfoldable pub call : ℤ → Result ℕ → ℕ → K → Result ℕ × K
    call fd (ok req) arg k = ioctl fd req arg k
    call fd (raise e) arg k = (raise e, k)

    unfoldable pub input_waiting : ℤ → K → Result ℕ × K
    unfolding require call
    input_waiting fd = call fd (require tiocinq) 0

    unfoldable pub output_waiting : ℤ → K → Result ℕ × K
    unfolding require call
    output_waiting fd = call fd (require n.tiocoutq_attr) 0

    -- `_read_tiocm_bits`
    unfoldable pub read_tiocm_bits : ℤ → K → Result ℕ × K
    unfolding require call
    read_tiocm_bits fd = call fd (require n.tiocmget_attr) 0

    unfoldable pub get_modem_lines : ℤ → K → Result ModemLines × K
    unfolding read_tiocm_bits
    get_modem_lines fd k =
        on_value
          (λ bits. (record {
            cts = has bits n.tiocm_cts;
            dsr = has bits n.tiocm_dsr;
            ri = has bits n.tiocm_ri;
            cd = has bits tiocm_cd;
          }))
          (read_tiocm_bits fd k)

    unfoldable pub get_control_lines : ℤ → K → Result ControlLines × K
    unfolding read_tiocm_bits
    get_control_lines fd k =
        on_value (λ bits. (record { rts = has bits n.tiocm_rts; dtr = has bits n.tiocm_dtr }))
          (read_tiocm_bits fd k)

    -- `if mask: …`
    unfoldable pub change_bits : ℤ → Option ℕ → ℕ → K → Result (Unit {0}) × K
    unfolding require call
    change_bits fd req mask k =
        if mask == 0 then (ok tt, k) else as_done (call fd (require req) mask k)

    -- After the bits to set, those to clear.
    unfoldable pub then_clear : ℤ → ℕ → Result (Unit {0}) × K → Result (Unit {0}) × K
    unfolding change_bits
    then_clear fd mask (ok _, k) = change_bits fd n.tiocmbic_attr mask k
    then_clear fd mask (raise e, k) = (raise e, k)

    unfoldable pub set_control_lines : ℤ → Option Bool → Option Bool → K → Result (Unit {0}) × K
    unfolding change_bits then_clear
    set_control_lines fd rts dtr k =
        if (set_mask rts dtr == 0) && (clear_mask rts dtr == 0)
        then (ok tt, k)
        else then_clear fd (clear_mask rts dtr)
            (change_bits fd n.tiocmbis_attr (set_mask rts dtr) k)

    unfoldable pub set_break : ℤ → Bool → K → Result (Unit {0}) × K
    unfolding require call break_request
    set_break fd on k = as_done (call fd (require (break_request on)) 0 k)
