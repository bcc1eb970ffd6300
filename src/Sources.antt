-- ===== src/Sources.antt =====
-- sdk/wapsell/resources: the registered data sources, their synchronization and its schedule.
mod Defs
mod Store
mod Outcome
mod Scheduler
mod Recorded
mod Due
mod Rounds
mod Ticks
mod Tests
unfoldable pub use Defs.*
