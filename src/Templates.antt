-- ===== src/Templates.antt =====
-- sdk/wapsell/templates and services/api/main.py: the message templates of a tenant.
mod Defs
mod Unique
mod Tests
unfoldable pub use Defs.*
