-- ===== src/Tests.antt =====
-- Runs of the definitions, and the theorems at concrete inputs.
mod Sample
mod Config
mod Server
mod Cloud
mod Guest
mod Shell
mod Scripts
mod Backends
mod Listing
