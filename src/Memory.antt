-- ===== src/Memory.antt =====
-- sdk/wapsell/memory/buyer.py: the in-memory ring buffer of each buyer's conversation.
mod Defs
pub mod History
mod Tests
unfoldable pub use Defs.*
