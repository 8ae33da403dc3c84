-- ===== src/Kernel.antt =====
-- internal/kernel: supervision of one plugin process (Manager).
pub mod Types
pub mod Invariant
pub mod Frame
pub mod Rpc
pub mod Artifacts
pub mod Start
pub mod Stop
pub mod Requests
pub mod Snapshot
pub mod Lifecycle
pub mod Tests
