-- ===== src/Posix/Kernel.antt =====
-- The system calls that the POSIX backends make, a parameter of their models, and how Python
-- sequences calls that may raise.
pub mod Rules
use anyserial.Base.{ℕ, Bool, String, List, ℤ, if◌then◌else◌}
use anyserial.Errors.{Exn, Result, ok, raise, is_os_error}
use anyserial.Backend.Protocol.{Call}
use anyserial.Posix.Termios.{TermiosAttrs}

-- The calls of `os`, `fcntl` and `termios` on a kernel state `K`. A descriptor is an int, since
-- methods are also called with the -1 of a closed backend.
pub record Kernel (K : Type 0) : Type 0 where
  -- `os.open(path, _OPEN_FLAGS)`
  pub open_device : String → Call K ℕ
  pub close : ℤ → Call K (Unit {0})
  -- `fcntl.flock(fd, LOCK_EX | LOCK_NB)`
  pub flock : ℤ → Call K (Unit {0})
  pub tcgetattr : ℤ → Call K TermiosAttrs
  -- `termios.tcsetattr(fd, TCSANOW, …)`
  pub tcsetattr : ℤ → TermiosAttrs → Call K (Unit {0})
  pub readv : ℤ → ℕ → Call K (List ℕ)
  pub write : ℤ → List ℕ → Call K ℕ
  -- `fcntl.ioctl` with a packed int
  pub ioctl : ℤ → ℕ → ℕ → Call K ℕ
  pub tcflush_input : ℤ → Call K (Unit {0})
  pub tcflush_output : ℤ → Call K (Unit {0})
  pub tcdrain : ℤ → Call K (Unit {0})
  -- `warnings.warn(…, RuntimeWarning)`, which raises where a filter says so
  pub warn : Call K (Unit {0})

module _ {S : Type 0} where
  abbrev pub pure : {A : Type 0} → A → Call S A
  pure a s = (ok a, s)

  abbrev pub raising : {A : Type 0} → Exn → Call S A
  raising e s = (raise e, s)

  -- A computation that makes no system call.
  abbrev pub lift : {A : Type 0} → Result A → Call S A
  lift r s = (r, s)

  -- The rest of a body runs on the value of a call that returned.
  abbrev pub resume_with : {A B : Type 0} → (A → Call S B) → Result A × S → Result B × S
  resume_with rest (ok a, s) = rest a s
  resume_with rest (raise e, s) = (raise e, s)

  infixl 5 ◌>>=◌ ◌>>◌
  unfoldable pub ◌>>=◌ : {A B : Type 0} → Call S A → (A → Call S B) → Call S B
  ◌>>=◌ call rest s = resume_with rest (call s)

  abbrev pub ◌>>◌ : {A B : Type 0} → Call S A → Call S B → Call S B
  call >> rest = call >>= λ _. rest

  -- `except`, for the exceptions that the test picks.
  unfoldable pub handle :
      {A : Type 0} → (Exn → Bool) → (Exn → Call S A) → Result A × S → Result A × S
  handle catches handler (ok a, s) = (ok a, s)
  handle catches handler (raise e, s) = if catches e then handler e s else (raise e, s)

  -- `with contextlib.suppress(OSError)`
  abbrev pub suppressed : Result (Unit {0}) × S → Result (Unit {0}) × S
  suppressed (ok u, s) = (ok u, s)
  suppressed (raise e, s) = if is_os_error e then (ok tt, s) else (raise e, s)
