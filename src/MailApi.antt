-- ===== src/MailApi.antt =====
-- The HTTP API of the mail client: backend/api.
pub mod Security
pub mod Chat
