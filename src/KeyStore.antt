-- ===== src/KeyStore.antt =====
-- key_store: the keys of the mail client, in memory, and their lifecycle.
pub mod Memory
pub mod Lifecycle
pub mod Session
pub mod Pairs
pub mod Capacity
pub mod Consumed
pub mod OneTime
pub mod Encrypted
pub mod Durable
pub mod Tests
