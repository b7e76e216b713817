-- ===== src/Backend/Asynchronous.antt =====
-- src/anyserial/_backend/protocol.py: `AsyncSerialBackend`, the asynchronous backend of a port.
-- A coroutine of the backend takes effect where it ends, with its result and a new state; one that
-- ends because its await threw goes through `interrupted`.
use anyserial.Base.{ℕ, Bool, String, List, Option}
use anyserial.Types.{ModemLines}
use anyserial.Errors.{Exn}
use anyserial.Config.{SerialConfig, Seconds}
use anyserial.Backend.Protocol.{Call}

pub record AsyncBackend (B : Type 0) : Type 0 where
  pub path : B → String
  pub is_open : B → Bool
  pub open_port : String → SerialConfig → Call B (Unit {0})
  pub aclose : Call B (Unit {0})
  pub receive : ℕ → Call B (List ℕ)
  -- the count, and the buffer as it is now
  pub receive_into : List ℕ → Call B (ℕ × List ℕ)
  pub send : List ℕ → Call B (Unit {0})
  pub configure : SerialConfig → Call B (Unit {0})
  pub reset_input_buffer : Call B (Unit {0})
  pub reset_output_buffer : Call B (Unit {0})
  pub drain : Call B (Unit {0})
  pub send_break : Seconds → Call B (Unit {0})
  pub modem_lines : Call B ModemLines
  pub set_control_lines : Option Bool → Option Bool → Call B (Unit {0})
  pub input_waiting : Call B ℕ
  pub output_waiting : Call B ℕ
  pub interrupted : Exn → B → B
