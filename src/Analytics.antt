-- ===== src/Analytics.antt =====
-- services/api/main.py: the analytics of a tenant's conversations.
mod Defs
mod Counting
mod Series
mod Today
mod Tests
unfoldable pub use Defs.*
