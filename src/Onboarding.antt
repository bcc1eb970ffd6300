-- ===== src/Onboarding.antt =====
-- sdk/wapsell/onboarding/flow.py: the slug of a business name and the provisioning of a tenant
-- from a Meta signup.
pub mod Slug
pub mod Unique
pub mod Flow
mod Tests
mod Defs
unfoldable pub use Defs.*
