-- ===== src/Webhook.antt =====
-- internal/webhook.
pub mod Signature
