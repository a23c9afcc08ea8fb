-- ===== src/KeyManager.antt =====
-- key_manager: the simulated QKD Key Manager.
pub mod KeyEntry
pub mod Pool
pub mod Api
pub mod Audit
pub mod PersistentStore
pub mod Status
pub mod RateLimit
pub mod Tests
