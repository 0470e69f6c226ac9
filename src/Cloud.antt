-- ===== src/Cloud.antt =====
-- internal/cloud: the providers of cloud guests.
pub mod Provider
pub mod Unikraft
