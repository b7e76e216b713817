-- ===== src/Scenarios/Sessions.antt =====
-- The theorem about a Linux backend's life, on a concrete kernel.
use anyserial.Base.{◌≡◌, refl, true, false, some, [], ◌∷◌, pos}
use anyserial.Config.{SerialConfig, Rs485Config, default_config, micros}
use anyserial.Linux.Rs485.{to_bytes, from_bytes, u32, u32_at}
use anyserial.Linux.Backend.Restore.{Accepts}
use anyserial.Linux.Backend.Session.{session}
use anyserial.Linux.Backend.Lifetime.{session_restores_rs485}
use anyserial.Scenarios.Machine.{
  linux_machine, host, idle, structure, linux_machine-Untouched, linux_machine-KeepsRs485,
}

abbrev half_duplex : Rs485Config
half_duplex = record {
  enabled = true;
  rts_on_send = true;
  rts_after_send = false;
  delay_before_send = micros (pos 2000);
  delay_after_send = micros (pos 0);
  rx_during_tx = false;
}

abbrev bus : SerialConfig
bus = record default_config { rs485 = some half_duplex }

abbrev plain : SerialConfig
plain = record default_config { baudrate = 250000 }

idle-Accepts : Accepts linux_machine true structure (structure idle)
unfolding to_bytes from_bytes u32 u32_at
idle-Accepts = record { payload = idle.rs485; packs = refl; takes = λ fd k. (idle.rs485, refl) }

session_restores_rs485_example :
    structure
      (session linux_machine host true "/dev/ttyS1" bus (plain ∷ bus ∷ []) idle).posix.kernel
    ≡ structure idle
session_restores_rs485_example =
    session_restores_rs485 linux_machine host true structure linux_machine-KeepsRs485
      linux_machine-Untouched idle idle-Accepts "/dev/ttyS1" bus (plain ∷ bus ∷ []) refl
