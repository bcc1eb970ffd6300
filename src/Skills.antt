-- ===== src/Skills.antt =====
-- sdk/wapsell/skills: the stage machine of the sales closer, the score of the lead qualifier, and the
-- search among the items.
mod Closer
mod Qualifier
mod ResourceSearch
mod Asked
mod Searched
mod Closing
mod Scoring
mod Tests
unfoldable pub use Closer.*
unfoldable pub use Qualifier.*
