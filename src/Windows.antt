-- ===== src/Windows.antt =====
-- src/anyserial/_windows: the Windows backend over the Win32 calls.
pub mod Dcb
pub mod Errors
pub mod Kernel32
pub mod Backend
pub mod Identifiers
pub mod Discovery
