-- ===== src/Handoff.antt =====
-- sdk/wapsell/handoff/detector.py: when a message goes to a human.
mod Defs
pub mod Decision
mod Tests
unfoldable pub use Defs.*
