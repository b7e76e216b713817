-- ===== src/Scenarios/Kernel.antt =====
-- The control lines on a kernel that keeps them as one number.
use anyserial.Base.{ℕ, ◌==◌, ◌≡◌, refl, true, false, none, some, ℤ, pos, if◌then◌else◌, arith}
use anyserial.Bits.{◌¦◌, ◌&~◌}
use anyserial.Errors.{Result, ok}
use anyserial.Posix.Ioctl.{
  Requests, require, call, change_bits, then_clear, set_control_lines, get_control_lines,
}
use anyserial.Posix.Ioctl.Lines.{ControlsLines, get_control_lines-set_control_lines}

-- Linux, whose `termios` module in Python has neither TIOCSBRK nor TIOCCBRK.
abbrev pub linux_requests : Requests
linux_requests = record {
  tiocinq_attr = some 21531;
  fionread_attr = some 21531;
  tiocoutq_attr = some 21521;
  tiocmget_attr = some 21525;
  tiocmbis_attr = some 21526;
  tiocmbic_attr = some 21527;
  tiocsbrk_attr = none;
  tioccbrk_attr = none;
  tiocm_rts = 4;
  tiocm_dtr = 2;
  tiocm_cts = 32;
  tiocm_dsr = 256;
  tiocm_ri = 128;
  tiocm_car_attr = some 64;
  tiocm_cd_attr = some 64;
  is_linux = true;
  is_bsd_family = false;
}

abbrev level_ioctl : ℤ → ℕ → ℕ → ℕ → Result ℕ × ℕ
level_ioctl fd req m bits =
    if req == 21525
    then (ok bits, bits)
    else if req == 21526
    then (ok 0, bits ¦ m)
    else (ok 0, bits &~ m)

abbrev level : ℕ → ℕ
level bits = bits

level_ioctl-ControlsLines : ControlsLines linux_requests level_ioctl level 21525
level_ioctl-ControlsLines = record {
  sets = λ fd req m k x r h. ground arith;
  clears = λ fd req m k x r h. ground arith;
  gettable = refl;
  reads = λ fd k. refl;
  rts_bit = refl;
  dtr_bit = refl;
  apart = refl;
}

raised_lowered :
    (set_control_lines linux_requests level_ioctl (pos 3) (some true) (some false) 2).0 ≡ ok tt
unfolding set_control_lines then_clear change_bits call require
raised_lowered = refl

get_control_lines-set_control_lines_example :
    (get_control_lines linux_requests level_ioctl
      (pos 3)
      (set_control_lines linux_requests level_ioctl (pos 3) (some true) (some false) 2).1).0
    ≡ ok (record { rts = true; dtr = false })
get_control_lines-set_control_lines_example =
    get_control_lines-set_control_lines linux_requests level_ioctl level 21525
      level_ioctl-ControlsLines (pos 3) (some true) (some false) 2 raised_lowered
