-- ===== src/Takeover.antt =====
-- services/api/main.py: the inbox of the dashboard, where a human takes over a conversation.
mod Defs
mod Reading
mod Guard
mod Isolated
mod Sent
pub mod Tests
unfoldable pub use Defs.*
unfoldable pub use Reading.*
