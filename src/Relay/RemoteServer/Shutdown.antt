-- ===== src/Relay/RemoteServer/Shutdown.antt =====
-- relay/remoteserver.go: attach, detach and Close in any order.
pub mod Tables
pub mod Tracked
pub mod Closing
pub mod Events
