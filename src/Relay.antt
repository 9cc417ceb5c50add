-- ===== src/Relay.antt =====
-- Package relay: the wire protocol, the control connection, listeners and proxies.
pub mod Conn
pub mod Frame
pub mod Register
pub mod Auth
pub mod Channel
pub mod CtrlConn
pub mod Listener
pub mod RemoteServer
pub mod Socks5
pub mod KnownHosts
pub mod UdpProxy
pub mod Reconnect
pub mod HealthCheck
pub mod RemoteClient
pub mod Identity
pub mod TlsDial
pub mod Copy
pub mod Proxy
