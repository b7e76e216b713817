-- ===== src/Scenarios/Machine.antt =====
-- A kernel as a record: its open descriptors, and the structures of one serial driver.
use anyserial.Base.{
  ◌/◌, ℕ, ◌==◌, ◌≡◌, refl, ◌∙◌, sym, ap, true, false, some, List, [], ◌∷◌, ◌++◌, ℤ, pos, negsuc,
  if◌then◌else◌, arith,
}
use anyserial.Errors.{Errno, Exn, Result, ok, raise, ◌>>=◌, no_attributes}
use anyserial.Posix.Kernel.{Kernel}
use anyserial.Posix.Kernel.Rules.{Keeps}
use anyserial.Posix.Termios.{TermiosAttrs, ControlChar}
use anyserial.Posix.Backend.{Platform}
use anyserial.Posix.Backend.Descriptors.{TracksDescriptors, remove}
use anyserial.Linux.Kernel.{LinuxKernel}
use anyserial.Linux.Rs485.{Rs485State, tiocgrs485, tiocsrs485, to_bytes, from_bytes}
use anyserial.Linux.Rs485.Layout.{to_bytes-from_bytes, to_bytes-IsPacked}
use anyserial.Linux.LowLatency.{tiocgserial}
use anyserial.Linux.LowLatency.Restore.{KeepsSerial}
use anyserial.Linux.Backend.Untouched.{Untouched}
use anyserial.Linux.Backend.Remembers.{KeepsRs485}
use anyserial.Scenarios.Hosts.{linux}
use anyserial.Scenarios.Kernel.{linux_requests}

pub record Machine : Type 0 where
  pub open_fds : List ℕ
  pub attrs : TermiosAttrs
  pub rs485 : List ℕ
  pub serial : List ℤ

abbrev bad_descriptor : Exn
bad_descriptor = Exn.os_error (record no_attributes { errno = some Errno.ebadf })

abbrev pub close_fd : ℤ → Machine → Result (Unit {0}) × Machine
close_fd (pos fd) m = (ok tt, record m { open_fds = remove fd m.open_fds })
close_fd (negsuc n) m = (raise bad_descriptor, m)

abbrev pub machine : Kernel Machine
machine = record {
  open_device = λ path m. (ok 3, record m { open_fds = 3 ∷ m.open_fds });
  close = close_fd;
  flock = λ fd m. (ok tt, m);
  tcgetattr = λ fd m. (ok m.attrs, m);
  tcsetattr = λ fd a m. (ok tt, record m { attrs = a });
  readv = λ fd n m. (ok [], m);
  write = λ fd xs m. (ok 0, m);
  ioctl = λ fd req arg m. (ok 0, m);
  tcflush_input = λ fd m. (ok tt, m);
  tcflush_output = λ fd m. (ok tt, m);
  tcdrain = λ fd m. (ok tt, m);
  warn = λ m. (ok tt, m);
}

-- The driver answers with its structure if that is one.
abbrev answered : List ℕ → Result Rs485State → Result (List ℕ)
answered payload (ok s) = ok payload
answered payload (raise e) = raise e

abbrev rs485_ioctl : ℤ → ℕ → List ℕ → Machine → Result (List ℕ) × Machine
rs485_ioctl fd req buf m =
    if req == tiocgrs485
    then (answered m.rs485 (from_bytes true m.rs485), m)
    else if req == tiocsrs485
    then (ok buf, record m { rs485 = buf })
    else (ok buf, m)

abbrev serial_ioctl : ℤ → ℕ → List ℤ → Machine → Result (List ℤ) × Machine
serial_ioctl fd req buf m =
    if req == tiocgserial then (ok m.serial, m) else (ok buf, record m { serial = buf })

abbrev pub linux_machine : LinuxKernel Machine
linux_machine = record {
  posix = machine;
  ioctl_bytes = rs485_ioctl;
  ioctl_ints = serial_ioctl;
  resolve = λ path m. (raise Exn.runtime_error, m);
  path_exists = λ path m. (ok false, m);
  read_text = λ path m. (ok "16", m);
  write_text = λ path text m. (ok tt, m);
  name = λ path. path;
  join = λ root part. part;
  same = λ a b. false;
  int_of_text = λ text. ok (pos 16);
  line_of_int = λ n. "1";
  rounded_ms = λ n. n / 1000;
}

abbrev pub host : Platform
host = record {
  constants = linux;
  requests = linux_requests;
  speeds = (9600, 13) ∷ (115200, 4098) ∷ [];
}

abbrev pub raw_attrs : TermiosAttrs
raw_attrs = record {
  iflag = 0;
  oflag = 0;
  cflag = 0;
  lflag = 0;
  ispeed = 0;
  ospeed = 0;
  cc =
      ControlChar.int 0
      ∷ ControlChar.int 0
      ∷ ControlChar.int 0
      ∷ ControlChar.int 0
      ∷ ControlChar.int 0
      ∷ ControlChar.int 0
      ∷ ControlChar.int 0
      ∷ [];
}

-- The driver's RS-485 bytes: TERMINATE_BUS is set, and a delay of 5 ms after sending.
abbrev pub idle : Machine
idle = record {
  open_fds = 0 ∷ 1 ∷ 2 ∷ [];
  attrs = raw_attrs;
  rs485 =
      32 ∷ 0 ∷ 0 ∷ 0 ∷ 0 ∷ 0 ∷ 0 ∷ 0 ∷ 5 ∷ 0 ∷ 0 ∷ 0 ∷ 0 ∷ 0 ∷ 0 ∷ 0 ∷ 0 ∷ 0 ∷ 0 ∷ 0 ∷ 0 ∷ 0 ∷ 0 ∷ 0
      ∷ 0 ∷ 0 ∷ 0 ∷ 0 ∷ 0 ∷ 0 ∷ 0 ∷ 0 ∷ [];
  serial = pos 4 ∷ pos 0 ∷ pos 1016 ∷ pos 4 ∷ pos 4096 ∷ pos 0 ∷ [];
}

abbrev pub open_fds : Machine → List ℕ
open_fds m = m.open_fds

pub machine-TracksDescriptors : TracksDescriptors machine open_fds
machine-TracksDescriptors = record {
  opens = λ path k fd h. ground arith;
  refuses = λ path k e h. cc;
  closes = λ fd k. refl;
  locks = λ fd k. refl;
}

abbrev pub serial : Machine → List ℤ
serial m = m.serial

pub linux_machine-KeepsSerial : KeepsSerial linux_machine serial
linux_machine-KeepsSerial = record {
  gets = λ fd buf k r h. cc;
  only_reads = λ fd buf k. refl;
  puts = λ fd v buf k r p h. refl;
  refuses = λ fd buf k e h. cc;
}

abbrev known : Result Rs485State → Rs485State
known (ok s) = s
known (raise e) = record {
  flags = 0;
  delay_rts_before_send = 0;
  delay_rts_after_send = 0;
  addr_recv = 0;
  addr_dest = 0;
}

abbrev pub structure : Machine → Rs485State
structure m = known (from_bytes true m.rs485)

closing-structure : (fd : ℤ) → Keeps structure (close_fd fd)
closing-structure (pos fd) k = refl
closing-structure (negsuc n) k = refl

pub linux_machine-Untouched : Untouched linux_machine structure
linux_machine-Untouched = record {
  opening = λ path k. refl;
  closing = closing-structure;
  locking = λ fd k. refl;
  getting = λ fd k. refl;
  setting = λ fd a k. refl;
  warning = λ k. refl;
  getting2 = λ fd buf k. refl;
  setting2 = λ fd buf k. refl;
}

answered_lem :
    (payload r : List ℕ) (x : Result Rs485State)
    → from_bytes true payload ≡ x
    → answered payload x ≡ ok r
    → from_bytes true r ≡ ok (known x)
answered_lem payload r (ok s) e h = cc
answered_lem payload r (raise f) e h = cc

append_nothing : (xs : List ℕ) → xs ++ [] ≡ xs
append_nothing [] = refl
append_nothing (x ∷ xs) = rw (append_nothing xs)

unpacked : (s : Rs485State) (xs : List ℕ) → to_bytes true s ≡ ok xs → known (from_bytes true xs) ≡ s
unpacked s xs h =
    let whole = to_bytes-from_bytes true s (to_bytes-IsPacked true s xs h) [] in
    let there : from_bytes true (xs ++ []) ≡ ok s =
      ap (λ (r : Result (List ℕ)). r >>= λ ys. from_bytes true (ys ++ [])) (sym h) ∙ whole in
    ap known (ap (from_bytes true) (sym (append_nothing xs)) ∙ there)

pub linux_machine-KeepsRs485 : KeepsRs485 linux_machine true structure
linux_machine-KeepsRs485 = record {
  gets = λ fd buf k r h. answered_lem k.rs485 r (from_bytes true k.rs485) refl h;
  only_reads = λ fd buf k. refl;
  puts = λ fd s payload k r p h. unpacked s payload p;
}
