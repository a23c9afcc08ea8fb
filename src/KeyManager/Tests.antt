-- ===== src/KeyManager/Tests.antt =====
-- Witnesses for the Key Manager, at a small pool.
pub mod Data
mod PoolRuns
mod Handlers
mod Saving
