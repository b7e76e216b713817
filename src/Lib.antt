-- ===== src/Lib.antt =====
-- anyserial: serial ports for AnyIO. This library models the core of the program and proves what
-- makes it correct.
--
-- The program. A `SerialPort` (src/anyserial/stream.py) is an AnyIO byte stream over a backend. On
-- POSIX the backend is synchronous (`SyncSerialBackend`, src/anyserial/_backend/protocol.py) and
-- the port awaits readiness of its descriptor; a `SerialConfig` (src/anyserial/config.py) says how
-- the line is set up, the backend translates it for the platform, and an OSError from a system
-- call becomes a `SerialError` (src/anyserial/exceptions.py). On Windows the backend is
-- asynchronous (`AsyncSerialBackend`), and the port delegates to it under the same guards.
--
-- The files.
--   Base            names of the libraries, Boolean tests, lists and integers
--   Bits            flag words read bit by bit, and masked writes
--   Types           src/anyserial/_types.py
--   Errors          src/anyserial/exceptions.py: exceptions as values of `Exn`, `Result`, and
--                   `errno_to_exception`
--   Config          src/anyserial/config.py: the dataclasses, `__post_init__`, `with_changes`
--   Posix/Termios   src/anyserial/_posix/termios_apply.py: the `apply_…` builders, and `build`, the
--                   chain that `PosixBackend._apply_config_to_fd` makes of them
--   Posix/Ioctl     src/anyserial/_posix/ioctl.py: queue depths, modem and control lines, BREAK
--   Posix/Kernel    the system calls of a backend as a record of functions, and Python's sequencing
--                   of calls that may raise
--   Posix/Baudrate  src/anyserial/_posix/baudrate.py: the table of standard rates
--   Posix/Backend   src/anyserial/_posix/backend.py: `PosixBackend`, method by method
--   Backend         src/anyserial/_backend/protocol.py: `SyncBackend` and `AsyncBackend`, the
--                   operations of a backend
--   Stream          src/anyserial/stream.py: the fields of a port and, for each method of
--                   `_PosixSerialPort`, a `start_…` up to its first await and a `resume_…` from one
--                   await to the next; Stream/Loop runs calls and wake-ups in any order. Acquiring the
--                   lock of `aclose` or of `configure` is an await of its own
--   AsyncPort       src/anyserial/stream.py: `_AsyncBackendSerialPort` in the same form, with its locks
--                   as fields; one that is free is taken without an await
--   Mock            src/anyserial/_mock/backend.py: the in-memory backend, its faults and its pair
--   Linux/Rs485     src/anyserial/_linux/rs485.py: `struct serial_rs485` and its delays
--   Linux/Baudrate  src/anyserial/_linux/baudrate.py: `struct termios2`
--   Linux/LowLatency  src/anyserial/_linux/low_latency.py: the driver's flags and the FTDI timer
--   Linux/Backend   src/anyserial/_linux/backend.py: `LinuxBackend` over the POSIX backend
--   Darwin, Bsd     src/anyserial/_darwin and src/anyserial/_bsd: `DarwinBackend`, `BsdBackend`
--   Windows/Dcb     src/anyserial/_windows/dcb.py: a configuration as a DCB and back
--   Windows/Errors  src/anyserial/_windows/_errors.py: Win32 codes as exceptions
--   Windows/Backend  src/anyserial/_windows/backend.py: `WindowsBackend`, its methods that do not
--                   move bytes in Windows/Backend/Control, over the calls of Windows/Kernel32
--   Opening         src/anyserial/stream.py: `open_serial_port`: the choice of a backend and both branches,
--                   and `SerialConnectable`
--   Sync            src/anyserial/sync.py: the blocking `SerialPort`, and the portal provider that
--                   the module caches
--   Selection       src/anyserial/_backend/selector.py and `_select_discovery`: the choice by platform
--   Discovery       src/anyserial/discovery.py: the canonical name of a port, the search for a port;
--                   in Discovery/Texts, Hwid and Sorting what the enumerators use of Python's `str`,
--                   `_format_hwid` and the sort by device
--   Windows/Identifiers  src/anyserial/_windows/discovery.py: the vendor, product and serial number
--                   in a device's identifiers
--   Windows/Discovery  src/anyserial/_windows/discovery.py: the enumerations by SetupAPI and registry
--   Linux/Discovery  src/anyserial/_linux/discovery.py: the walk over /sys/class/tty
--   Darwin/Discovery  src/anyserial/_darwin/discovery.py: the walk over the services of IOKit
--   Bsd/Discovery   src/anyserial/_bsd/discovery.py: the ports by the names of their nodes
--   Discovery/Adapters  src/anyserial/_discovery: the ports as pyserial and pyudev list them
--   Darwin/Client   src/anyserial/_darwin/_iokit.py: `_CtypesIOKitClient`, which the walk runs on
--   Scenarios       concrete runs
--
-- Parameters. What is not in the repository is an argument: a backend of a port is any state with the
-- operations of `SyncBackend`, the mock's socket is a `Socket`, the `termios` module is a record of
-- constants in which an attribute may be missing, and the calls of `os`, `fcntl`, `termios`, sysfs and
-- Win32 are the fields of a `Kernel`, a `LinuxKernel` and a `Kernel32`. The enumerators ask a `Sysfs`,
-- a `DevTree`, the `DeviceLists` of Windows and an `IoKit`, the protocol that the repository's own client fills
-- over the `Frameworks` of macOS; the blocking port calls anyio's `Portals`. What a theorem needs of
-- one of them is a named record of documented behaviour (`WritesFromFront`, `ReadsWithin`,
-- `TakesSome`, `SwitchesBreak`, `SendsFromFront`, `ReceivesQueued`, `IsLayout`, `ControlsLines`,
-- `TracksDescriptors`, `KeepsSerial`, `KeepsRs485`, `Untouched`, `Accepts`, `TracksHandles`,
-- `FailsAsOsError`, `WritesToLine`, `ResolvesOnce`, `CountsLeases`, `RaisesOsErrors`,
-- `CountsReferences`, `RunsOut`, `CountsEntries`, `Dwindles`, `CountsValues`,
-- `LeavesDescriptors`), and Scenarios gives an
-- instance of each that the results ask for.
--
-- Numbers. Flag words and bytes are natural numbers; a Python int that may be negative is an
-- integer; a DWORD keeps its wrap-around; a time is an exact number of microseconds, or an infinity
-- or nan. Where the source rounds a floating-point product, that of an RS-485 delay in seconds by a
-- thousand, the rounded product is a parameter, `rounded_ms`.
--
-- Loops. A read or send loop of the port parks at each await, so each round is one function call,
-- and a run is a list of wake-ups. The loop of the mock's `reset_input_buffer` runs on fuel, one
-- more than the bytes queued. The send loop of the Windows backend has a round for each byte, as a
-- round takes one or more; its read loop, which may poll an idle port for ever, has as many rounds
-- as it is given and says so where they run out. The enumerations of Windows and of IOKit take rounds
-- too, one for each entry and one for the end, and are enough where the entries run out; the removal
-- of the port's name from a friendly name has as many rounds as the text has characters.
--
-- Not modelled: the capability snapshots, which are constants; the glue of the Windows backend with
-- asyncio and trio, which uses private interfaces of these; typed attributes; the loading and the
-- declarations of foreign functions; and the threads of the blocking ports, whose calls the model runs
-- one after the other.
pub mod Base
pub mod Bits
pub mod Types
pub mod Errors
pub mod Config
pub mod Posix
pub mod Backend
pub mod Stream
pub mod AsyncPort
pub mod Mock
pub mod Linux
pub mod Darwin
pub mod Bsd
pub mod Windows
pub mod Selection
pub mod Discovery
pub mod Opening
pub mod Sync
pub mod Scenarios
