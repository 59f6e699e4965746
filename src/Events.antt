-- ===== src/Events.antt =====
-- internal/events: server-sent events.
pub mod Types
pub mod Hub
