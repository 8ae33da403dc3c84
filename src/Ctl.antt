-- ===== src/Ctl.antt =====
-- cmd/rpcpluginctl: the control program.
pub mod Args
pub mod Split
pub mod Options
pub mod Run
pub mod Composed
pub mod Chosen
mod Tests
