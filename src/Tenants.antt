-- ===== src/Tenants.antt =====
-- sdk/wapsell/tenant: the in-memory repository, the manager, the router, the in-memory spawner and
-- the supervisor. A method takes the store and returns its result with the store it leaves.
mod Defs
pub mod Store
pub mod Lifecycle
unfoldable pub use Defs.*
