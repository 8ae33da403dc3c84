-- ===== src/EventLog.antt =====
-- internal/eventlog: the log file and its backups.
pub mod Types
pub mod Rotate
pub mod Write
pub mod Read
pub mod Selected
pub mod Counted
pub mod Provider
pub mod Observation
pub mod Display
pub mod Accepted
pub mod Shown
pub mod Embedded
pub mod Shift
pub mod Written
pub mod Tests
