-- ===== src/Bundle.antt =====
-- internal/providerbundle: metadata of a provider bundle.
pub mod Types
pub mod Redact
pub mod Project
pub mod Safe
pub mod Validate
pub mod Load
pub mod Loader
pub mod Loaded
pub mod Observed
pub mod Ending
pub mod Tests
