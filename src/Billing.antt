-- ===== src/Billing.antt =====
-- sdk/wapsell/billing: the plan catalog, the in-memory subscription repository and the service.
mod Defs
pub mod Current
pub mod Service
mod Reconciled
mod Cancelled
mod Tests
unfoldable pub use Defs.*
