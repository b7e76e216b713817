-- ===== src/Scenarios.antt =====
-- Concrete runs: an in-memory socket, ports on it, and the theorems applied to them.
pub mod Memory
pub mod Ports
pub mod Hosts
pub mod Kernel
pub mod Machine
pub mod Devices
pub mod Loopback
pub mod Win32
pub mod Enumeration
pub mod Blocking
pub mod Walks
pub mod Registry
pub mod Sessions
