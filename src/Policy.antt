-- ===== src/Policy.antt =====
-- policy_engine: whether, and at which level, a message may be sent.
pub mod Rules
pub mod Fallback
pub mod Validator
pub mod Laws
pub mod Sending
mod Tests
