-- ===== src/Stream.antt =====
-- src/anyserial/stream.py: the port over a synchronous backend (`SerialPort` and
-- `_PosixSerialPort`) as coroutines on one event loop.
-- Between two awaits a coroutine runs alone, so a method is a function from the port to the port,
-- which ends, or parks in an await with its local variables (`Task`); the event loop resumes it
-- with a `Wake`. The locks of `aclose` and `configure` only serialise bodies that hold no await,
-- so each such body is one step.
pub mod Port
pub mod Receive
pub mod Send
pub mod Control
pub mod Loop
