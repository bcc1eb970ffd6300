-- ===== src/Inbox.antt =====
-- sdk/wapsell/inbox/repository.py: which buyers the bot is silent to, and until when.
mod Defs
pub mod Windows
unfoldable pub use Defs.*
