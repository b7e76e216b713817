-- ===== src/Linux.antt =====
-- src/anyserial/_linux: what the Linux backend adds to the POSIX one.
pub mod Kernel
pub mod Rs485
pub mod Baudrate
pub mod LowLatency
pub mod Discovery
pub mod Backend
