-- ===== src/Backend/Protocol.antt =====
-- src/anyserial/_backend/protocol.py: `SyncSerialBackend`, the synchronous backend of a port.
-- A backend is a state `B` with the methods below. A method returns its result, or raises, and
-- leaves a new state either way.
use anyserial.Base.{ℕ, ◌≤◌, ◌≡◌, length, take, ◌++◌, Bool, String, Option, List, ℤ}
use anyserial.Types.{ModemLines}
use anyserial.Errors.{Result, ok, raise, Exn}
use anyserial.Config.{SerialConfig}

abbrev pub Call : Type 0 → Type 0 → Type 0
Call B A = B → Result A × B

pub record SyncBackend (B : Type 0) : Type 0 where
  pub path : B → String
  pub is_open : B → Bool
  pub open_port : String → SerialConfig → Call B (Unit {0})
  pub close : Call B (Unit {0})
  pub fileno : B → ℤ
  -- The bytes read into a buffer of the given size, from its start; the count is their number.
  pub read_nonblocking : ℕ → Call B (List ℕ)
  pub write_nonblocking : List ℕ → Call B ℕ
  pub configure : SerialConfig → Call B (Unit {0})
  pub reset_input_buffer : Call B (Unit {0})
  pub reset_output_buffer : Call B (Unit {0})
  pub set_break : Bool → Call B (Unit {0})
  pub tcdrain_blocking : Call B (Unit {0})
  pub modem_lines : Call B ModemLines
  pub set_control_lines : Option Bool → Option Bool → Call B (Unit {0})
  pub input_waiting : Call B ℕ
  pub output_waiting : Call B ℕ

-- The documented behaviour of a write: it takes the bytes from the front of what it is given, as
-- many as it says, and none when it raises. `wire` is what the backend has accepted so far.
pub record WritesFromFront {B : Type 0} (be : SyncBackend B) (wire : B → List ℕ) : Type 0 where
  pub accepted :
      (data' : List ℕ) (b : B) (n : ℕ)
      → (be.write_nonblocking data' b).0 ≡ ok n
      → (n ≤ length data') × (wire (be.write_nonblocking data' b).1 ≡ wire b ++ take n data')
  pub refused :
      (data' : List ℕ) (b : B) (e : Exn)
      → (be.write_nonblocking data' b).0 ≡ raise e
      → wire (be.write_nonblocking data' b).1 ≡ wire b
