-- ===== src/Windows/Kernel32.antt =====
-- The Win32 calls of the Windows backend, and those of asyncio or trio that wait for an overlapped
-- operation: a parameter.
use anyserial.Base.{ℕ, String, List}
use anyserial.Config.{Seconds}
use anyserial.Backend.Protocol.{Call}
use anyserial.Windows.Dcb.{Dcb}

pub record Kernel32 (K : Type 0) : Type 0 where
  -- `detect_runtime`
  pub detect_runtime : Call K (Unit {0})
  -- `CreateFileW`, for reading and writing, overlapped and not shared
  pub create_file : String → Call K ℕ
  pub close_handle : ℕ → Call K (Unit {0})
  pub setup_comm : ℕ → ℕ → ℕ → Call K (Unit {0})
  pub get_comm_state : ℕ → Call K Dcb
  pub set_comm_state : ℕ → Dcb → Call K (Unit {0})
  -- `SetCommTimeouts`, with the five fields in their order
  pub set_comm_timeouts : ℕ → List ℕ → Call K (Unit {0})
  pub set_comm_mask : ℕ → ℕ → Call K (Unit {0})
  pub purge_comm : ℕ → ℕ → Call K (Unit {0})
  pub flush_file_buffers : ℕ → Call K (Unit {0})
  pub set_comm_break : ℕ → Call K (Unit {0})
  pub clear_comm_break : ℕ → Call K (Unit {0})
  pub get_comm_modem_status : ℕ → Call K ℕ
  pub escape_comm_function : ℕ → ℕ → Call K (Unit {0})
  -- `ClearCommError`: the input and the output queue
  pub clear_comm_error : ℕ → Call K (ℕ × ℕ)
  -- the runtime's completion port
  pub register : ℕ → Call K (Unit {0})
  -- an overlapped read for a buffer of a size: the bytes that it completed with
  pub readinto : ℕ → ℕ → Call K (List ℕ)
  pub write : ℕ → List ℕ → Call K ℕ
  pub wait_comm_event : ℕ → Call K ℕ
  -- `anyio.sleep`
  pub sleep : Seconds → Call K (Unit {0})
