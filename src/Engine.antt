-- ===== src/Engine.antt =====
-- backend/crypto_engine/__init__.py
pub mod Action
pub mod Envelope
pub mod Services
pub mod Encrypt
pub mod Guarantees
pub mod Send
pub mod Decrypt
pub mod Receive
pub mod RoundTrip
pub mod Refusals
pub mod World
pub mod Tests
use qu_mail.Prelude.{ℕ, String, Bool, List}
