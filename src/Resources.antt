-- ===== src/Resources.antt =====
-- sdk/wapsell/resources: the in-memory store of items, and its search.
mod Defs
mod Search
pub mod Store
pub mod Tests
pub mod Found
unfoldable pub use Defs.*
unfoldable pub use Search.*
