-- ===== src/Posix.antt =====
-- src/anyserial/_posix: what every POSIX backend shares.
pub mod Termios
pub mod Ioctl
pub mod Kernel
pub mod Baudrate
pub mod Backend
