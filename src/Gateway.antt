-- ===== src/Gateway.antt =====
-- The HTTP gateway, sdk/go/gateway: its data, its components, and the request pipeline.
pub mod Token
pub mod Header
pub mod Types
pub mod Recorder
pub mod AccessLog
pub mod Respond
pub mod RequestId
pub mod Credential
pub mod Route
pub mod Flow
pub mod RateLimit
pub mod Policy
pub mod Authenticate
pub mod Cors
pub mod Health
pub mod ClientIp
pub mod Finish
pub mod Pipeline
pub mod Options
pub mod Proxy
pub mod Assembly
pub mod Tests
pub mod ConfigTests
pub mod StartTests
mod ProxyTests
