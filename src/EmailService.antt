-- ===== src/EmailService.antt =====
-- The e-mail transport of the mail client: backend/email_service.
pub mod Mime
