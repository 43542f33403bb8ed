-- ===== src/Session.antt =====
-- The Redis sessions of sdk/go/gateway/sessionauth.
pub mod Key
pub mod Base64
pub mod Call
pub mod Store
pub mod Redis
pub mod Load
pub mod Script
pub mod Authenticator
pub mod Tests
mod StoreTests
