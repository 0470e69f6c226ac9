-- ===== src/Guest.antt =====
-- support/guest: the SSH server inside a cloud guest.
pub mod Idle
pub mod Session
pub mod Modes
