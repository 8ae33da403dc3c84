-- ===== src/Daemon.antt =====
-- cmd/rpcplugind/main.go: the daemon.
pub mod Plugins
pub mod Config
pub mod Run
pub mod Printed
pub mod Accepted
pub mod Exited
mod Tests
