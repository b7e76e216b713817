-- ===== src/Errors.antt =====
-- src/anyserial/exceptions.py: the exception hierarchy and the errno mapping.
-- An exception is a value of `Exn`, and code that may raise returns a `Result`.
-- Of the standard classes only what the library raises or catches is kept: OSError with its three
-- attributes, and by name the classes that are no OSError.
pub mod Mapping
use anyserial.Base.{
  ◌≡◌, refl, ℕ, Bool, true, false, String, Option, none, some, if◌then◌else◌, ◌&&◌, ◌||◌,
}

-- The values of the `errno` module that the library names; the rest by number.
pub data Errno : Type 0 where
  enoent enodev enxio ebusy eacces eio einval enotty epipe ebadf : Errno
  eagain ealready einprogress eintr : Errno
  other : ℕ → Errno

-- What a `strerror` says: a text, or the text that names a rejected feature.
pub data Message : Type 0 where
  text : String → Message
  not_supported : String → Message

pub record OsError : Type 0 where
  pub errno : Option Errno
  pub strerror : Option Message
  pub filename : Option String

-- The subclasses of SerialError, and SerialError itself.
pub data SerialClass : Type 0 where
  serial_error configuration_error port_not_found port_busy unsupported_feature : SerialClass
  unsupported_configuration unsupported_platform serial_closed : SerialClass
  serial_disconnected unsupported_async_backend : SerialClass

pub data Exn : Type 0 where
  -- an OSError that is no SerialError
  os_error : OsError → Exn
  serial : SerialClass → OsError → Exn
  value_error runtime_error type_error overflow_error struct_error index_error busy_resource
        closed_resource cancelled :
      Exn

pub data Result {ℓ} (A : Type ℓ) : Type ℓ where
  ok : A → Result A
  raise : Exn → Result A

-- `SomeError(msg)`: an OSError built from one argument has no errno and no filename.
abbrev pub no_attributes : OsError
no_attributes = record { errno = none; strerror = none; filename = none }

-- CPython makes `OSError(EAGAIN, …)` a BlockingIOError and `OSError(EINTR, …)` an
-- InterruptedError; a SerialError keeps its class.
abbrev is_retry_errno : Option Errno → Bool
is_retry_errno (some Errno.eagain) = true
is_retry_errno (some Errno.ealready) = true
is_retry_errno (some Errno.einprogress) = true
is_retry_errno (some Errno.eintr) = true
is_retry_errno _ = false

-- `except (BlockingIOError, InterruptedError)` catches it.
unfoldable pub is_retry : Exn → Bool
is_retry (Exn.os_error e) = is_retry_errno e.errno
is_retry _ = false

abbrev is_blocking_errno : Option Errno → Bool
is_blocking_errno (some Errno.eagain) = true
is_blocking_errno (some Errno.ealready) = true
is_blocking_errno (some Errno.einprogress) = true
is_blocking_errno _ = false

-- `except BlockingIOError` catches it.
unfoldable pub is_blocking : Exn → Bool
is_blocking (Exn.os_error e) = is_blocking_errno e.errno
is_blocking _ = false

-- `except OSError` catches it.
unfoldable pub is_os_error : Exn → Bool
is_os_error (Exn.os_error e) = true
is_os_error (Exn.serial c e) = true
is_os_error _ = false

-- `except Exception` catches it; a cancellation is a BaseException.
abbrev pub is_exception : Exn → Bool
is_exception Exn.cancelled = false
is_exception _ = true

-- The tags that the call sites pass as `context`.
pub data Context : Type 0 where
  opening lock ioctl io : Context

abbrev open_not_found : Option Errno → Bool
open_not_found (some Errno.enoent) = true
open_not_found (some Errno.enodev) = true
open_not_found (some Errno.enxio) = true
open_not_found _ = false

abbrev busy : Option Errno → Bool
busy (some Errno.ebusy) = true
busy (some Errno.eacces) = true
busy _ = false

abbrev disconnect : Option Errno → Bool
disconnect (some Errno.eio) = true
disconnect (some Errno.enxio) = true
disconnect _ = false

abbrev ioctl_rejected : Option Errno → Bool
ioctl_rejected (some Errno.einval) = true
ioctl_rejected (some Errno.enotty) = true
ioctl_rejected _ = false

abbrev is_open : Context → Bool
is_open Context.opening = true
is_open _ = false

abbrev is_lock : Context → Bool
is_lock Context.lock = true
is_lock _ = false

abbrev is_ioctl : Context → Bool
is_ioctl Context.ioctl = true
is_ioctl _ = false

abbrev is_io : Context → Bool
is_io Context.io = true
is_io _ = false

-- The class that the cascade of tests picks for an errno.
unfoldable pub class_of_errno : Option Errno → Context → SerialClass
class_of_errno err context =
    if is_open context && open_not_found err
    then SerialClass.port_not_found
    else if is_lock context || busy err
    then SerialClass.port_busy
    else if is_ioctl context && ioctl_rejected err
    then SerialClass.unsupported_feature
    else if is_io context && disconnect err
    then SerialClass.serial_disconnected
    else SerialClass.serial_error

-- `exc.filename or path`: an absent and an empty filename are both falsy.
unfoldable pub or_path : Option String → Option String → Option String
or_path none path = path
or_path (some String.[]) path = path
or_path (some (String.◌∷◌ c s)) path = some (String.◌∷◌ c s)

-- `errno_to_exception`, for the OSError that the caller caught. What is no OSError never gets
-- here: the `except` clauses let it through, and it is returned as it is.
unfoldable pub errno_to_exception : Exn → Context → Option String → Exn
unfolding class_of_errno or_path
errno_to_exception (Exn.os_error e) context path =
    Exn.serial (class_of_errno e.errno context) (record e { filename = or_path e.filename path })
errno_to_exception exc context path = exc

module _ {ℓ κ} {X : Type ℓ} {Y : Type κ} where
  -- What comes next runs on the value of a call that returned; an exception goes past it.
  infixl 5 ◌>>=◌
  abbrev pub ◌>>=◌ : Result X → (X → Result Y) → Result Y
  raise exc >>= next = raise exc
  ok x >>= next = next x

  -- Code that returned got past its first call.
  pub first_ok :
      (call : Result X) (next : X → Result Y) {y : Y}
      → (call >>= next) ≡ ok y
      → (x : X) × (call ≡ ok x) × (next x ≡ ok y)
  first_ok (raise exc) next h = cc
  first_ok (ok x) next h = (x, refl, h)
