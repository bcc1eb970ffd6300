-- ===== src/Crm.antt =====
-- sdk/wapsell/crm/recorder.py: contacts and activities over the store of items.
mod Defs
pub mod Activities
pub mod Contacts
mod Tests
unfoldable pub use Defs.*
