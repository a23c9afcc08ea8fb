-- ===== src/Extensions.antt =====
-- The extension framework of the mail client: backend/extensions.
pub mod Base
pub mod Chat
