-- ===== src/Agent.antt =====
-- sdk/wapsell/agent: the SOUL prompt and the loop that answers a message.
mod Soul
mod Loop
pub mod Respond
pub mod Tests
unfoldable pub use Soul.*
unfoldable pub use Loop.*
