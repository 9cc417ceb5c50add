-- ===== src/Manager.antt =====
-- Package manager: configuration, the tunnel manager, its control interface and the log buffer.
pub mod Config
pub mod Tunnels
pub mod Operations
pub mod Logging
pub mod Control
pub mod Samples
pub mod RemoteSpec
pub mod Runners
