-- ===== src/Backend.antt =====
-- src/anyserial/_backend: the contract between the port and the platform backends.
pub mod Protocol
pub mod Asynchronous
