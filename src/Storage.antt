-- ===== src/Storage.antt =====
-- The storage service, services/storage: its access policy, configuration, checks and readiness.
pub mod Validation
pub mod AccessPolicy
pub mod Config
pub mod Health
mod Tests
