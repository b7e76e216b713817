-- ===== src/Scenarios/Devices.antt =====
-- The theorems about the POSIX, macOS and BSD backends, on a concrete kernel.
use anyserial.Base.{ℕ, ◌≡◌, refl, true, false, none, some, List, [], ◌∷◌, ℤ, pos, arith}
use anyserial.Backend.Protocol.{SyncBackend}
use anyserial.Selection.{Platform}
use anyserial.Opening.{Resolver, SerialBackend, open_serial_port}
use anyserial.Opening.Closed.{RaisesOsErrors}
use anyserial.Opening.Released.{Released, LeavesDescriptors, open_serial_port-Released}
use anyserial.Errors.{Exn, is_os_error, no_attributes, Result, ok, raise}
use anyserial.Config.{SerialConfig, default_config}
use anyserial.Posix.Kernel
use anyserial.Posix.Baudrate.{Attribute, rate_of_name, digits_value}
use anyserial.Posix.Baudrate.Discovery.{named}
use anyserial.Posix.Backend.{Posix, apply_config_to_fd, open_port, new_posix, is_open}
use anyserial.Posix.Backend.Applied.{apply_config_to_fd-Keeps}
use anyserial.Posix.Backend.Descriptors.{open_port-Owns, Owns}
use anyserial.Posix.Backend.Port.{aclose_releases}
use anyserial.Stream.Port.{Task, Wake}
use anyserial.Stream.Loop.{Op, Event, World, pull, step, run}
use anyserial.Linux.Baudrate.{Termios2Attrs}
use anyserial.Linux.LowLatency.{
  enable_low_latency, restore_serial_flags, read_serial_flags, slot, set_flag, has_bit, or_bits,
  write_serial_flags, assign_slot, put_slot, flags_index,
}
use anyserial.Linux.LowLatency.Restore.{
  SameButFlags, raised_flags, restore_serial_flags-enable_low_latency,
}
use anyserial.Darwin
use anyserial.Darwin.Rejection.{darwin_refuses_first}
use anyserial.Scenarios.Machine.{
  Machine, machine, linux_machine, host, idle, open_fds, machine-TracksDescriptors, serial,
  linux_machine-KeepsSerial,
}

abbrev closed : Posix Machine
closed = new_posix idle

open_port-Owns_example :
    Owns machine open_fds
      (0 ∷ 1 ∷ 2 ∷ [])
      (open_port machine (apply_config_to_fd machine host) "/dev/ttyUSB0" default_config closed).1
open_port-Owns_example =
    open_port-Owns machine open_fds machine-TracksDescriptors (apply_config_to_fd machine host)
      (apply_config_to_fd-Keeps machine open_fds host (λ fd k. refl) (λ fd a k. refl))
      (0 ∷ 1 ∷ 2 ∷ []) "/dev/ttyUSB0" default_config closed refl

-- A backend that holds descriptor 3, and a port on it whose `aclose` waits for the lock.
abbrev busy : World (Posix Machine)
busy = record {
  port = record {
    backend = record {
      fd = pos 3;
      path = "/dev/ttyUSB0";
      config = some default_config;
      kernel = record idle { open_fds = 3 ∷ 0 ∷ 1 ∷ 2 ∷ [] };
    };
    config = default_config;
    closed = false;
    receive_guard = false;
    send_guard = false;
  };
  tasks = Task.close_turn ∷ [];
  results = [];
}

abbrev no_ioctl : ℤ → ℕ → List ℕ → Machine → Result (List ℕ) × Machine
no_ioctl fd req buf m = (ok buf, m)

abbrev mac : SyncBackend (Posix Machine)
mac = Darwin.darwin_backend machine host no_ioctl 9600

abbrev later : List Event
later = Event.call (Op.receive (pos 4)) ∷ Event.call Op.close ∷ Event.wake 0 Wake.ready ∷ []

closes_first : pull 0 busy.tasks ≡ some (Task.close_turn, [])
unfolding pull
closes_first = refl

aclose_releases_example :
    ((e : Exn)
      → open_fds (step mac busy (Event.wake 0 (Wake.threw e))).port.backend.kernel
        ≡ open_fds busy.port.backend.kernel)
    × (open_fds (run mac (step mac busy (Event.wake 0 Wake.ready)) later).port.backend.kernel
        ≡ 0 ∷ 1 ∷ 2 ∷ [])
aclose_releases_example =
    aclose_releases machine open_fds machine-TracksDescriptors mac (0 ∷ 1 ∷ 2 ∷ []) busy 0 [] later
      refl closes_first refl refl refl

abbrev lookup : Resolver
lookup = some (λ path. raise (Exn.os_error no_attributes))

lookup-RaisesOsErrors : RaisesOsErrors lookup
unfolding is_os_error
lookup-RaisesOsErrors path e p = ground arith

abbrev others : List ℕ
others = 0 ∷ 1 ∷ 2 ∷ []

abbrev instances : Platform → SerialBackend (Posix Machine)
instances p = SerialBackend.sync mac

leaves : LeavesDescriptors machine open_fds no_ioctl
leaves = record {
  gets = λ fd k. refl;
  sets = λ fd a k. refl;
  warns = λ k. refl;
  speeds = λ fd req payload k. refl;
}

open_serial_port-Released_example :
    Released machine open_fds host no_ioctl 9600 leaves others
      (open_serial_port "darwin" instances lookup "/dev/cu.usbserial" none closed)
unfolding is_open
open_serial_port-Released_example =
    open_serial_port-Released machine open_fds host no_ioctl 9600 leaves machine-TracksDescriptors
      instances others lookup "/dev/cu.usbserial" none closed refl lookup-RaisesOsErrors refl refl

-- `B9600`, `BRKINT` and a second `B9600`.
abbrev attributes : List Attribute
attributes =
    record { name = 66 ∷ 57 ∷ 54 ∷ 48 ∷ 48 ∷ []; value = some 12 }
    ∷ record { name = 66 ∷ 82 ∷ 75 ∷ []; value = some 2 }
    ∷ record { name = 66 ∷ 57 ∷ 54 ∷ 48 ∷ 48 ∷ []; value = some 13 }
    ∷ []

named_9600 : named 9600 attributes none ≡ some 13
unfolding rate_of_name digits_value
named_9600 = refl

abbrev custom : Termios2Attrs
custom = record {
  iflag = 0;
  oflag = 0;
  cflag = 7344;
  lflag = 0;
  line = 0;
  cc = 3 ∷ 28 ∷ 127 ∷ 21 ∷ 4 ∷ 0 ∷ 1 ∷ 0 ∷ 17 ∷ 19 ∷ 26 ∷ 0 ∷ 18 ∷ 15 ∷ 23 ∷ 22 ∷ 0 ∷ 0 ∷ 0 ∷ [];
  ispeed = 250000;
  ospeed = 250000;
}

enabled_flags : (enable_low_latency linux_machine (pos 3) idle).0 ≡ ok (pos 4096)
unfolding Kernel.◌>>=◌ enable_low_latency read_serial_flags slot set_flag has_bit or_bits
    write_serial_flags assign_slot put_slot
enabled_flags = refl

restored_flags :
    (restore_serial_flags linux_machine
      (pos 3)
      (pos 4096)
      (enable_low_latency linux_machine (pos 3) idle).1).0
    ≡ ok tt
unfolding Kernel.◌>>=◌ enable_low_latency restore_serial_flags read_serial_flags slot set_flag
    has_bit or_bits write_serial_flags assign_slot put_slot
restored_flags = refl

restore_serial_flags-enable_low_latency_example :
    SameButFlags linux_machine serial linux_machine-KeepsSerial idle
      (enable_low_latency linux_machine (pos 3) idle).1
    × (slot (serial (enable_low_latency linux_machine (pos 3) idle).1) flags_index
        ≡ ok (raised_flags linux_machine serial linux_machine-KeepsSerial (pos 4096)))
    × (serial
          (restore_serial_flags linux_machine
            (pos 3)
            (pos 4096)
            (enable_low_latency linux_machine (pos 3) idle).1).1
        ≡ serial idle)
restore_serial_flags-enable_low_latency_example =
    restore_serial_flags-enable_low_latency linux_machine serial linux_machine-KeepsSerial (pos 3)
      (pos 4096) idle enabled_flags restored_flags

abbrev low_latency_config : SerialConfig
low_latency_config = record default_config { low_latency = true }

darwin_refuses_first_example :
    (Darwin.open_port machine host no_ioctl 9600 "/dev/cu.usbserial" low_latency_config closed
      ≡ (raise Darwin.unsupported, closed))
    × (Darwin.configure machine host no_ioctl 9600 low_latency_config closed
        ≡ (raise Darwin.unsupported, closed))
darwin_refuses_first_example =
    darwin_refuses_first machine host no_ioctl 9600 "/dev/cu.usbserial" low_latency_config closed
      refl
