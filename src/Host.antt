-- ===== src/Host.antt =====
-- internal/kernel/host.go: the managers of all plugins of a host.
pub mod Types
pub mod Build
pub mod Operations
pub mod Routing
pub mod Direct
pub mod Agreeing
pub mod Lists
pub mod Building
pub mod Starting
pub mod Ready
pub mod Ticking
pub mod Routed
pub mod Capabilities
pub mod Tests
