-- ===== src/Scenarios/Win32.antt =====
-- The theorems about the Windows backend, on a kernel that keeps a table of handles and a line.
use anyserial.Base.{ℕ, ◌≤◌, ◌≡◌, refl, true, none, some, List, [], ◌∷◌, ◌++◌, length, take, arith}
use anyserial.Errors.{Exn, ok, raise}
use anyserial.Config.{default_config}
use anyserial.Posix.Backend.Descriptors.{remove}
use anyserial.Windows.Dcb.{Dcb, build_dcb}
use anyserial.Windows.Errors.{WinErrors}
use anyserial.Windows.Kernel32.{Kernel32}
use anyserial.Windows.Backend.{
  Windows, new_windows, open_port, aclose, send, set_up, apply_dcb, use_handle, finish_open,
  normalise_com_path,
}
use anyserial.Windows.Backend.Lifetime.{Shut, win_aclose-open}
use anyserial.Windows.Backend.Calls.{TracksHandles, FailsAsOsError}
use anyserial.Windows.Backend.Handles.{Opened, win_open-Opened}
use anyserial.Windows.Backend.Delivery.{WritesToLine, Sent, win_send-Sent}
use anyserial.Posix.Kernel

record System : Type 0 where
  pub handles : List ℕ
  pub line : List ℕ
  pub dcb : Dcb

-- A write takes at most two bytes; no other call fails.
abbrev win32 : Kernel32 System
win32 = record {
  detect_runtime = λ s. (ok tt, s);
  create_file = λ path s. (ok 9, record s { handles = 9 ∷ s.handles });
  close_handle = λ h s. (ok tt, record s { handles = remove h s.handles });
  setup_comm = λ h n m s. (ok tt, s);
  get_comm_state = λ h s. (ok s.dcb, s);
  set_comm_state = λ h d s. (ok tt, record s { dcb = d });
  set_comm_timeouts = λ h t s. (ok tt, s);
  set_comm_mask = λ h m s. (ok tt, s);
  purge_comm = λ h m s. (ok tt, s);
  flush_file_buffers = λ h s. (ok tt, s);
  set_comm_break = λ h s. (ok tt, s);
  clear_comm_break = λ h s. (ok tt, s);
  get_comm_modem_status = λ h s. (ok 16, s);
  escape_comm_function = λ h n s. (ok tt, s);
  clear_comm_error = λ h s. (ok (0, 0), s);
  register = λ h s. (ok tt, s);
  readinto = λ h n s. (ok [], s);
  write = λ h xs s.
      (ok (length (take 2 xs)), record s { line = s.line ++ take (length (take 2 xs)) xs });
  wait_comm_event = λ h s. (ok 0, s);
  sleep = λ d s. (ok tt, s);
}

abbrev codes : WinErrors
codes = record { winerror = λ e. none; number = λ e. 22 }

abbrev handles : System → List ℕ
handles s = s.handles

abbrev line : System → List ℕ
line s = s.line

win32-TracksHandles : TracksHandles win32 codes handles
win32-TracksHandles = record {
  creates = λ path k h e. ground arith;
  fails = λ path k e h. cc;
  closes = λ h k. refl;
  detecting = λ k. refl;
  queueing = λ h n m k. refl;
  getting = λ h k. refl;
  setting = λ h d k. refl;
  timing = λ h t k. refl;
  masking = λ h m k. refl;
  purging = λ h m k. refl;
  registering = λ h k. refl;
}

win32-FailsAsOsError : FailsAsOsError win32 codes handles
win32-FailsAsOsError = record {
  setup_fails = λ h n m k e p. cc;
  get_fails = λ h k e p. cc;
  set_fails = λ h d k e p. cc;
  timeouts_fail = λ h t k e p. cc;
  close_fails = λ h k e p. cc;
  mask_fails = λ h m k e p. cc;
  purge_fails = λ h m k e p. cc;
}

within : (xs : List ℕ) → length (take 2 xs) ≤ length xs
within [] = omega arith
within (x ∷ []) = omega arith
within (x ∷ y ∷ xs) = omega arith

win32-WritesToLine : WritesToLine win32 line
win32-WritesToLine = record {
  takes = λ h xs k n p. (let e : n ≡ length (take 2 xs) = cc in rw e (within xs, refl));
  refuses = λ h xs k e p. cc;
}

abbrev system : System
system = record { handles = 4 ∷ []; line = []; dcb = build_dcb default_config }

win_open-Opened_example :
    Opened win32 codes handles win32-TracksHandles win32-FailsAsOsError
      (4 ∷ [])
      (open_port win32 codes "COM3" default_config (new_windows system))
win_open-Opened_example =
    win_open-Opened win32 codes handles win32-TracksHandles win32-FailsAsOsError "COM3"
      default_config (new_windows system) refl

win_aclose-open_example :
    Shut win32 codes handles win32-TracksHandles win32-FailsAsOsError
      (4 ∷ [])
      (open_port win32 codes "COM3" default_config (new_windows system)).0
      (aclose win32 codes (open_port win32 codes "COM3" default_config (new_windows system)).1)
win_aclose-open_example =
    win_aclose-open win32 codes handles win32-TracksHandles win32-FailsAsOsError "COM3"
      default_config (new_windows system) refl

short_name : normalise_com_path "COM12" ≡ "\\\\.\\COM12"
short_name = refl

long_name : normalise_com_path "\\\\?\\COM12" ≡ "\\\\?\\COM12"
long_name = refl

-- The table of handles after an `open` whose registration with the runtime raised and an `aclose`.
abbrev unregistered : Kernel32 System
unregistered = record win32 { register = λ h s. (raise Exn.runtime_error, s) }

unregistered_leaks :
    let after = (open_port unregistered codes "COM3" default_config (new_windows system)).1 in
    (aclose unregistered codes after).1.kernel.handles ≡ 9 ∷ 4 ∷ []
unfolding open_port aclose use_handle finish_open set_up apply_dcb Kernel.◌>>=◌ Kernel.handle
unregistered_leaks = refl

abbrev opened : Windows System
opened = record {
  path = "COM3";
  handle = 9;
  is_open = true;
  config = some default_config;
  kernel = record system { handles = 9 ∷ 4 ∷ [] };
}

win_send-Sent_example :
    let (r, after) = send win32 codes (1 ∷ 2 ∷ 3 ∷ []) opened in
    Sent win32 codes line [] (1 ∷ 2 ∷ 3 ∷ []) (r, after.kernel)
win_send-Sent_example =
    win_send-Sent win32 codes line win32-WritesToLine (1 ∷ 2 ∷ 3 ∷ []) opened refl
