-- ===== src/Admin.antt =====
-- internal/adminrpc/adminrpc.go: the admin service of the daemon.
pub mod Service
pub mod Serving
pub mod Checked
pub mod Ended
mod Tests
