-- ===== src/Linux/Kernel.antt =====
-- The calls that the Linux backend makes beside those of every POSIX backend, a parameter.
use anyserial.Base.{ℕ, Bool, String, List, ℤ}
use anyserial.Errors.{Result}
use anyserial.Backend.Protocol.{Call}
use anyserial.Posix.Kernel.{Kernel}

-- `fcntl.ioctl` with a buffer answers with the buffer as the kernel left it. The methods of a
-- `Path` that reach the file system are calls too; those on its text are not.
pub record LinuxKernel (K : Type 0) : Type 0 where
  pub posix : Kernel K
  -- with bytes
  pub ioctl_bytes : ℤ → ℕ → List ℕ → Call K (List ℕ)
  -- with an array of ints
  pub ioctl_ints : ℤ → ℕ → List ℤ → Call K (List ℤ)
  -- `path.resolve(strict=True)`
  pub resolve : String → Call K String
  pub path_exists : String → Call K Bool
  pub read_text : String → Call K String
  pub write_text : String → String → Call K (Unit {0})
  -- `Path(…).name`, `root / part` and the comparison of two names
  pub name : String → String
  pub join : String → String → String
  pub same : String → String → Bool
  -- `int(text.strip())`, and `f"{value}\n"`
  pub int_of_text : String → Result ℤ
  pub line_of_int : ℤ → String
  -- `round(seconds * 1000)` of that many microseconds, on Python's floats
  pub rounded_ms : ℕ → ℕ
