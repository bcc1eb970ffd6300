-- ===== src/Extractor.antt =====
-- sdk/wapsell/crm/extractor.py: what a language model says of a conversation, and how the CRM takes it.
mod Parse
mod Contact
mod Todo
mod Apply
mod Dispatch
mod Protected
mod Enriched
mod Titles
mod Rows
mod Tasks
mod Stages
mod Tests
unfoldable pub use Parse.*
unfoldable pub use Contact.*
unfoldable pub use Todo.*
unfoldable pub use Apply.*
