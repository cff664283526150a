-- ===== src/Security.antt =====
-- src/security.rs: masking and the connection tracker.
pub mod Mask
pub mod Tracker
pub mod Threads
