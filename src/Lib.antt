-- ===== src/Lib.antt =====
-- QuMail: a model of the mail client's keys, ciphers and policy, and of the simulated QKD Key Manager.
--
-- The Key Manager (key_manager) holds a pool of one-time-pad bytes and a count of AES keys, gives keys
-- out under fresh ids, lets each be consumed once, saves its state through an encrypted store, and logs
-- to a hash chain. The backend (backend) asks it for keys, decides by its policy at which of four levels
-- a message is sent, encrypts it and its attachments, decrypts what it receives, and keeps its keys.
--
--   KeyManager.KeyEntry       KeyEntry and its dict form         key_manager/core/key_pool.py
--   KeyManager.Pool           the state of KeyPool, _persist,    key_manager/core/key_pool.py
--                             _zeroize_key, _update_user_quota
--   KeyManager.Pool.Methods   allocate_key, inject_key,          key_manager/core/key_pool.py
--                             consume_key, delete_key, add_*
--   KeyManager.Pool.Maintenance  initialize, cleanup_expired,    key_manager/core/key_pool.py
--                             shutdown, get_stats, get_user_stats
--   KeyManager.Api            the handlers over the pool         key_manager/api/keys.py
--   KeyManager.Audit          AuditLogger                        key_manager/core/persistent_store.py
--   KeyManager.PersistentStore  PersistentKeyStore               key_manager/core/persistent_store.py
--   Crypto.Otp                otp_encrypt, otp_decrypt, with MAC backend/crypto_engine/otp.py
--   Crypto.AesGcm             aes_encrypt, aes_decrypt, combined backend/crypto_engine/aes_gcm.py
--   Crypto.KeyDerivation      derive_key, derive_email_keys      backend/crypto_engine/key_derivation.py
--   Crypto.Integrity          integrity envelopes                backend/crypto_engine/integrity.py
--   Policy.Rules              SecurityRules                      backend/policy_engine/rules.py
--   Policy.Fallback           get_fallback_level                 backend/policy_engine/fallback.py
--   Policy.Validator          validate_send_request              backend/policy_engine/validator.py
--   KeyStore.Memory           MemoryKeyStore                     backend/key_store/memory_store.py
--   KeyStore.Lifecycle        KeyLifecycle                       backend/key_store/lifecycle.py
--   KeyStore.Session          the session keys                   backend/key_store/__init__.py
--   KeyStore.Encrypted        EncryptedKeyStore                  backend/key_store/encrypted_store.py
--   KeyStore.Pairs            the private and public keys        backend/key_store/__init__.py
--   QkdClient                 the client of the Key Manager      backend/qkd_client/client.py
--   Crypto.Pqc                Kyber and Dilithium, simulated     backend/crypto_engine/pqc.py
--                             or of liboqs
--   Engine.Envelope           the dicts of an encrypted e-mail   backend/crypto_engine/__init__.py
--   Engine.Services           what the engine calls              backend/crypto_engine/__init__.py
--   Engine.Encrypt            _encrypt_otp, _encrypt_aes,        backend/crypto_engine/__init__.py
--                             _encrypt_pqc
--   Engine.Send               encrypt_email, attachments         backend/crypto_engine/__init__.py
--   Engine.Decrypt            _decrypt_otp, _decrypt_aes, ...    backend/crypto_engine/__init__.py
--   Accounts                  AccountManager                     backend/accounts/manager.py
--   AuditLog                  AuditLogger, a ring buffer         backend/utils/audit_logger.py
--   Engine.Receive            decrypt_email, decrypt_attachment  backend/crypto_engine/__init__.py
--   Entropy.Sources           where the entropy comes from       backend/crypto_engine/quantum_sim.py
--   Entropy.Fill              the loops that fill a buffer       backend/crypto_engine/quantum_sim.py
--   Entropy.Pool, .Health     EntropyPool                        backend/crypto_engine/quantum_sim.py
--   Entropy.Csprng            ChaCha20CSPRNG                     backend/crypto_engine/quantum_sim.py
--   Entropy.Process           the module-level functions         backend/crypto_engine/quantum_sim.py,
--                                                                backend/crypto_engine/secure_random.py
--   KeyManager.RateLimit      RateLimitMiddleware                key_manager/main.py
--   KeyManager.Status         the views of the pool              key_manager/api/status.py
--   Storage                   the tables of the database         backend/storage/database.py
--   MailApi.Security          the security endpoints             backend/api/security.py
--   Extensions.Base           messages, levels, the registry     backend/extensions/base.py
--   Extensions.Chat           SecureChatExtension                backend/extensions/chat.py
--   MailApi.Chat              the chat endpoints                 backend/api/chat.py
--   EmailService.Mime         the message that carries a mail    backend/email_service/mime_builder.py
--   EmailService.Mime.Parser  what is read of it                 backend/email_service/mime_parser.py
--   EmailService.Mime.Transport  what the receiver gets of it    backend/email_service/imap_handler.py
--
-- The other modules of these trees hold proofs, and those named Tests hold witnesses. A method of the
-- pool is a function from the pool to a result and the pool that it leaves; a method that raises leaves
-- what it had written. A lock admits one method at a time, so a run is a sequence of calls, each the
-- whole method. A Python dict is an association list in insertion order (Dict). Key objects that leave a
-- dict are kept in a list of the state, because whoever holds a reference still sees them. Byte strings
-- are lists of numbers, times are microseconds, and a count that can fall below zero is an integer. Every loop is
-- over a list but the one that fills a buffer block by block (Entropy.Fill), which has one round of fuel
-- more than the buffer has bytes: each round writes a byte at least, so the fuel is never short.
--
-- The engine's coroutines are actions on the state of the parts that they call. Engine.Services has those
-- calls as an interface, Engine.Guarantees has the laws that the engine relies on, and Engine.World fills
-- both: devices that share a Key Manager, made of the client, the handlers and the pool of the other
-- modules, and of liboqs. There each device has its database, as Storage models it; that and the
-- devices' key pairs are fixed. liboqs takes bytes, and the database has a public key as text; the services
-- keep the two apart.
--
-- The entropy source, the clock, UUIDs, base64, JSON, ISO times, SHA-256, HMAC, HKDF, PBKDF2, AES-GCM
-- and what httpx gives for a request are parameters, with the documented laws that the proofs use. Of the
-- persistent store the pool's model has the data that it would load and whether a save succeeds; the store
-- itself is modelled apart, where writing a file succeeds. So are base64, JSON and UTF-8 in the engine, and
-- liboqs. BLAKE2b, ChaCha20, the sources of entropy and what serialization and transport make of the headers
-- of a message are parameters too. SQLite is
-- its documented effect on a table, as a dict from the unique column. Not modelled: the audit lines of the
-- engine, plain MIME messages, IMAP and SMTP, network I/O, the endpoints of the mail client but those of
-- Security and Chat, voice calls, and the user interface.
pub mod Prelude
pub mod Result
pub mod Dict
pub mod Crypto
pub mod KeyManager
pub mod Policy
pub mod KeyStore
pub mod EmailService
pub mod Engine
pub mod Accounts
pub mod AuditLog
pub mod Entropy
pub mod Storage
pub mod Extensions
pub mod MailApi
pub mod QkdClient
