-- ===== src/Scenarios/Hosts.antt =====
-- The theorems about termios, errors, configurations, RS-485 and the DCB, at concrete hosts.
use anyserial.Base.{
  ℕ, ltb, ◌%◌, ◌/◌, ◌+◌, ◌==◌, if◌then◌else◌, ◌≡◌, refl, true, false, none, some, [], ◌∷◌, ◌++◌,
  pos, arith,
}
use anyserial.Types.{ByteSize, Parity}
use anyserial.Errors.{Errno, Exn, ok, no_attributes, ◌>>=◌}
use anyserial.Config.{
  SerialConfig, Changes, no_changes, default_config, with_changes, post_init, replaced, micros,
  Rs485Config,
}
use anyserial.Config.Validation.{with_changes-IsValid, IsValid}
use anyserial.Posix.Termios.{
  Constants, TermiosAttrs, ControlChar, build, cmspar, rts_cts_mask, byte_size_bits, apply_raw_mode,
  assign, apply_byte_size, apply_parity, parity_flags, apply_stop_bits, apply_flow_control,
  apply_hangup,
}
use anyserial.Bits.{◌&~◌}
use anyserial.Posix.Termios.Layout.{IsLayout}
use anyserial.Posix.Termios.Reference.{build-reference, reference}
use anyserial.Posix.Termios.Readback.{build-build}
use anyserial.Linux.Rs485.{
  Rs485State, to_bytes, from_bytes, with_flags_from, from_config, flags_of, seconds_to_ms,
}
use anyserial.Linux.Rs485.Layout.{to_bytes-from_bytes}
use anyserial.Linux.Rs485.Flags.{with_flags_from-Applied, Applied}
use anyserial.Windows.Dcb.{apply_config, build_dcb, read_dcb}
use anyserial.Windows.Dcb.Decoding.{read_dcb-apply_config, decoded}

-- The constants of Linux on x86-64.
abbrev pub linux : Constants
linux = record {
  ignbrk = 1;
  brkint = 2;
  parmrk = 8;
  istrip = 32;
  inlcr = 64;
  igncr = 128;
  icrnl = 256;
  ixon = 1024;
  ixoff = 4096;
  ixany = 2048;
  opost = 1;
  echo = 8;
  echonl = 64;
  icanon = 2;
  isig = 1;
  iexten = 32768;
  csize = 48;
  cs5 = 0;
  cs6 = 16;
  cs7 = 32;
  cs8 = 48;
  cread = 128;
  clocal = 2048;
  parenb = 256;
  parodd = 512;
  cstopb = 64;
  hupcl = 1024;
  vmin = 6;
  vtime = 5;
  cmspar_attr = none;
  crtscts_attr = some 2147483648;
  ccts_oflow_attr = none;
  crts_iflow_attr = none;
  on_linux = true;
}

linux-IsLayout : IsLayout linux
unfolding cmspar rts_cts_mask byte_size_bits
linux-IsLayout = record {
  apart = (
    (refl, (refl, (refl, (refl, (refl, (refl, tt)))))),
    (
      (refl, (refl, (refl, (refl, (refl, tt))))),
      (
        (refl, (refl, (refl, (refl, tt)))),
        ((refl, (refl, (refl, tt))), ((refl, (refl, tt)), ((refl, tt), (tt, tt)))),
      ),
    ),
  );
  sizes = λ s. ground arith;
}

-- Fresh attributes, with a control character for each index.
abbrev zero_char : ControlChar
zero_char = ControlChar.int 0

abbrev driver : TermiosAttrs
driver = record {
  iflag = 1280;
  oflag = 5;
  cflag = 1215;
  lflag = 35387;
  ispeed = 13;
  ospeed = 13;
  cc = zero_char ∷ zero_char ∷ zero_char ∷ zero_char ∷ zero_char ∷ zero_char ∷ zero_char ∷ [];
}

-- 19200 baud, 7 data bits, even parity, both kinds of flow control.
abbrev seven_even : SerialConfig
seven_even = record default_config {
  baudrate = 19200;
  byte_size = ByteSize.seven;
  parity = Parity.even;
  flow_control = record { xon_xoff = true; rts_cts = true; dtr_dsr = false };
}

abbrev driver_after : TermiosAttrs
driver_after = record {
  iflag = 5120;
  oflag = 4;
  cflag = 2147487151;
  lflag = 2608;
  ispeed = 13;
  ospeed = 13;
  cc =
      zero_char
      ∷ zero_char
      ∷ zero_char
      ∷ zero_char
      ∷ zero_char
      ∷ zero_char
      ∷ ControlChar.int 1
      ∷ [];
}

build-driver : build linux driver seven_even ≡ ok driver_after
unfolding build apply_raw_mode assign apply_byte_size apply_parity parity_flags apply_stop_bits
    apply_flow_control apply_hangup cmspar rts_cts_mask byte_size_bits ◌&~◌
build-driver = refl

build-reference_example : build linux driver seven_even ≡ reference linux driver seven_even
build-reference_example = build-reference linux linux-IsLayout driver seven_even

build-build_example : build linux driver_after default_config ≡ build linux driver default_config
build-build_example = build-build linux linux-IsLayout driver seven_even default_config build-driver

abbrev gone : Exn
gone = Exn.os_error (record no_attributes { errno = some Errno.eio })

abbrev faster : Changes
faster = record no_changes { baudrate = some (pos 230400) }

abbrev with_faster : SerialConfig
with_faster = record default_config { baudrate = 230400 }

faster_accepted : with_changes default_config faster ≡ ok with_faster
unfolding with_changes post_init replaced
faster_accepted = refl

with_changes-IsValid_example : IsValid with_faster
with_changes-IsValid_example = with_changes-IsValid default_config faster faster_accepted

abbrev rs485_state : Rs485State
rs485_state = record {
  flags = 33;
  delay_rts_before_send = 70000;
  delay_rts_after_send = 3;
  addr_recv = 200;
  addr_dest = 9;
}

to_bytes-from_bytes_example :
    (to_bytes true rs485_state >>= λ xs. from_bytes true (xs ++ 1 ∷ 2 ∷ [])) ≡ ok rs485_state
to_bytes-from_bytes_example =
    to_bytes-from_bytes true rs485_state
      (record {
        flags_fit = omega arith;
        before_fits = omega arith;
        after_fits = omega arith;
        recv_fits = omega arith;
        dest_fits = omega arith;
      })
      (1 ∷ 2 ∷ [])

-- Exact products, a tie to the even number of milliseconds
abbrev rounded : ℕ → ℕ
rounded n =
    if ltb (n % 1000) 500
    then n / 1000
    else if ltb 500 (n % 1000)
    then n / 1000 + 1
    else if n / 1000 % 2 == 0
    then n / 1000
    else n / 1000 + 1

abbrev half_duplex : Rs485Config
half_duplex = record {
  enabled = true;
  rts_on_send = true;
  rts_after_send = false;
  delay_before_send = micros (pos 1500);
  delay_after_send = micros (pos 0);
  rx_during_tx = false;
}

abbrev merged_state : Rs485State
merged_state = record rs485_state {
  flags = 35;
  delay_rts_before_send = 2;
  delay_rts_after_send = 0;
}

half_duplex_merged : with_flags_from rounded rs485_state half_duplex ≡ ok merged_state
unfolding with_flags_from from_config flags_of seconds_to_ms ◌&~◌
half_duplex_merged = refl

with_flags_from-Applied_example : Applied rounded rs485_state half_duplex merged_state
with_flags_from-Applied_example =
    with_flags_from-Applied rounded rs485_state half_duplex merged_state half_duplex_merged

read_dcb-apply_config_example :
    read_dcb (apply_config seven_even (build_dcb default_config)) ≡ ok (decoded seven_even)
read_dcb-apply_config_example =
    read_dcb-apply_config seven_even (build_dcb default_config) (omega arith)
