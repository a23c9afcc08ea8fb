-- ===== src/Crypto.antt =====
-- backend/crypto_engine: the primitives that need no network. The ciphers, hashes and key-derivation
-- functions of the Python packages are the parameters in `Crypto.Primitives`.
pub mod Primitives
pub mod Xor
pub mod Otp
pub mod AesGcm
pub mod KeyDerivation
pub mod Integrity
pub mod Pqc
pub mod Examples
mod Tests
