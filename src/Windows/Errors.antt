-- ===== src/Windows/Errors.antt =====
-- src/anyserial/_windows/_errors.py: Win32 error codes as exceptions of the hierarchy.
use anyserial.Base.{
  ℕ, ◌==◌, Bool, true, false, ◌&&◌, ◌||◌, String, Option, none, some, if◌then◌else◌,
}
use anyserial.Errors.{Errno, Exn, SerialClass, Context, OsError, or_path}

-- What Python knows of an OSError on Windows beside the fields of `OsError`: its `winerror`, and
-- the number that `errno` is.
pub record WinErrors : Type 0 where
  pub winerror : OsError → Option ℕ
  pub number : Errno → ℕ

abbrev pub is_ioctl : Context → Bool
is_ioctl Context.ioctl = true
is_ioctl _ = false

-- `x or y`, for numbers or None.
abbrev or_code : Option ℕ → Option ℕ → Option ℕ
or_code none y = y
or_code (some n) y = if n == 0 then y else some n

abbrev number_of : WinErrors → Option Errno → Option ℕ
number_of host none = none
number_of host (some e) = some (host.number e)

-- `getattr(exc, "winerror", None) or exc.errno`
unfoldable pub code_of : WinErrors → OsError → Option ℕ
code_of host e = or_code (host.winerror e) (number_of host e.errno)

abbrev is_code : Option ℕ → ℕ → Bool
is_code none n = false
is_code (some m) n = m == n

-- The cascade of tests on the code.
unfoldable pub class_of_code : Option ℕ → Context → SerialClass
class_of_code code context =
    if is_code code 2
    then SerialClass.port_not_found
    else if is_code code 5 || is_code code 32
    then SerialClass.port_busy
    else if is_code code 6 || is_code code 995
    then SerialClass.serial_closed
    else if is_code code 87 && is_ioctl context
    then SerialClass.unsupported_configuration
    else if is_code code 1617 || is_code code 21 || is_code code 31
    then SerialClass.serial_disconnected
    else SerialClass.serial_error

-- `exc.errno or 0`
abbrev errno_or_zero : Option Errno → Option Errno
errno_or_zero none = some (Errno.other 0)
errno_or_zero (some e) = some e

-- `winerror_to_exception`, for the OSError that the caller caught; what is none goes past it. The
-- attribute `winerror` that the result gets is left out.
unfoldable pub winerror_to_exception : WinErrors → Exn → Context → String → Exn
unfolding code_of class_of_code or_path
winerror_to_exception host (Exn.os_error e) context path =
    Exn.serial (class_of_code (code_of host e) context)
      (record e { errno = errno_or_zero e.errno; filename = or_path e.filename (some path) })
winerror_to_exception host exc context path = exc
