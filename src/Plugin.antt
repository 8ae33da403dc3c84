-- ===== src/Plugin.antt =====
-- pkg/plugin: what the SDK does inside a plugin's process.
pub mod Config
pub mod Logging
pub mod Server
pub mod Environment
pub mod Guarded
pub mod Diagnosed
pub mod Handshake
mod Tests
