-- ===== src/Entropy.antt =====
-- The random generator of the program: backend/crypto_engine/quantum_sim.py, and
-- backend/crypto_engine/secure_random.py on top of it.
pub mod Fill
pub mod Sources
pub mod Pool
pub mod Health
pub mod Csprng
pub mod Process
pub mod Stream
pub mod Repeats
pub mod Service
pub mod Reused
mod Tests
