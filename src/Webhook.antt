-- ===== src/Webhook.antt =====
-- The handling of an inbound message in services/api/main.py.
pub mod Defs
mod Frames
pub mod Outcome
pub mod Tests
