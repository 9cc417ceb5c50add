-- ===== src/Lib.antt =====
-- A verification library for tunnelmanager, a Go program that forwards local, remote and dynamic
-- tunnels: package relay moves bytes and multiplexes channels over control connections, package
-- manager keeps the configured tunnels and runs them in a daemon that listens on a control socket.
--
-- How the parts interact. A client of a remote tunnel dials the server, proves that it knows the
-- token (Relay.Auth), registers its tunnels (Relay.Register) and then both sides run a control
-- connection (Relay.CtrlConn) that carries frames (Relay.Frame) of many channels (Relay.Channel). The
-- server opens a public listener per port and address, which several control connections share
-- (Relay.Listener, Relay.RemoteServer). The manager (Manager.Tunnels, Manager.Operations) starts and
-- stops tunnels, keeps its configuration in a file (Manager.Config), collects log lines
-- (Manager.Logging) and answers requests (Manager.Control). For each tunnel it runs one of the runners
-- (Manager.Runners): a listening one opens a listener, with the identity that SetupTLS returns
-- (Relay.Identity) when the tunnel has TLS, and serves a proxy (Relay.Proxy, Relay.UdpProxy), whose
-- connections Relay copies both ways (Relay.Copy); a remote one runs clients that reconnect
-- (Relay.RemoteClient, Relay.Reconnect) over connections of TLSDial (Relay.TlsDial), which asks the
-- store of known hosts (Relay.KnownHosts). The commands (Command) send their requests over the control
-- socket (Manager.Control.Exchange) to the daemon (Daemon), which owns the manager.
--
-- Which file models what:
--   Prelude                native numbers, lists, byte strings, big-endian words, results, actions,
--                          decimal numbers, addresses, lines and fields
--   Relay/Conn             a net.Conn as io.ReadFull and Write see it
--   Relay/Frame            relay/ctrlframe.go: ReadFrame, WriteFrame
--   Relay/Register         relay/ctrlconn.go: RemoteTunnel, packTunnels, unpackTunnels
--   Relay/Auth             relay/auth.go: AuthClient, AuthServer, RegisterClient, RegisterServer;
--                          Auth/Login: a client that connects against handleClient of the server
--   Relay/Channel          relay/stream.go: channel and its critical sections
--   Relay/CtrlConn         relay/ctrlconn.go: CtrlConn, readLoop, handleFrame and the handlers,
--                          OpenChannel, Close; CtrlConn/Calls: Read, Write, CloseWrite and Close of a
--                          channel, AcceptChannel, KeepAlive
--   Relay/Listener         relay/remoteserver.go: sharedListener
--   Relay/RemoteServer     relay/remoteserver.go: RemoteServer, attachSharedListener,
--                          detachSharedListener, trackConn, Close, handleClient;
--                          RemoteServer/Accepting: Serve, acceptLoop, listenTunnel;
--                          RemoteServer/Shutdown: its goroutines in any order
--   Manager/Config         manager/config.go: Config, LoadConfig, SaveConfig
--   Manager/Tunnels        manager/manager.go: Manager, TunnelState, startOne, Start, Stop, groups
--   Manager/Operations     manager/manager.go: List, Status, Add, Remove, Reload, Enable, Disable,
--                          Restart, Save
--   Manager/Logging        manager/logging.go: LogBuffer
--   Manager/RemoteSpec     manager/manager.go: parseRemoteSpec
--   Manager/Control        manager/manager.go: HandleControl, Logs; manager/control.go: the messages
--   Relay/Socks5           relay/socks5.go: socksHandshake, socksPasswordAuth
--   Relay/KnownHosts       relay/knownhosts.go: KnownHosts; relay/tls.go: verifyServerFingerprint
--   Relay/UdpProxy         relay/udpproxy.go: UDPProxy
--   Relay/Reconnect        relay/reconnect.go: BackoffDelay
--   Relay/HealthCheck      relay/healthcheck.go: HealthCheck
--   Relay/RemoteClient     relay/remoteclient.go: RemoteClient, Run, connect, handleChannels, Close
--   Relay/Identity         relay/identity.go: keys, certificates and their files, fingerprints;
--                          Identity/Cache: LoadOrGenerateIdentity, and SetupTLS of relay/tls.go
--   Relay/TlsDial          relay/tls.go: TLSDial
--   Relay/Copy             relay/relay.go: Relay, closeWrite
--   Relay/Proxy            relay/tcpproxy.go, relay/chainproxy.go, relay/socks5proxy.go: Proxy, Serve,
--                          handle, Stats, Close; Proxy/Socks: the handler of the SOCKS5 proxy
--   Manager/Runners        manager/manager.go: runLocal, runChain, runDynamic, runRemoteServer;
--                          Runners/Clients: runRemoteClient, runRemoteClientMulti
--   Manager/Control/Exchange
--                          manager/control.go: SendControl, handleControlConn
--   Command                main.go: the switch of main, the commands, cmdStart
--   Daemon                 main.go: runDaemon
--   Forward                main.go: parseForwardSpec and its callers, buildTunnelConfig
-- The modules below them hold the proofs; those called Runs, and Manager/Samples, hold concrete runs.
--
-- How the code is represented. State is a record and an operation a function on it; an operation that
-- can fail returns a Result beside the state that it leaves. Objects that are shared by pointer stand
-- on a list and a pointer is a position in it. What runs under one lock is one step. Steps of
-- different goroutines are separate functions where their order matters: the parts of
-- detachSharedListener, and the step relation of Relay/Channel/Flow. Where several goroutines of one
-- object take turns, a turn is a constructor of an event type and a schedule is a list of turns, in
-- any order (Relay/Copy, Relay/RemoteClient, Relay/Proxy, Relay/UdpProxy, Daemon). Files are a
-- function from paths to contents, and a write that fails changes nothing. Strings are lists of bytes.
-- Words keep their wrap-around: the 16-bit sum in handleNewChannel, the uint32 channel ids and the
-- int64 send window, a bit pattern below 2^64. A panic and a blocked send on a full Go channel are
-- results of their own.
--
-- Bounds and fuel. The loop of a channel's Write has fuel, the number of bytes to send: each turn that
-- goes on sends at least one byte. The loop of listenTunnel has 32 turns: a turn takes 100 ms, and the
-- deadline is 3 s after the call. Decimal numbers are written with at most 20 digits, which are
-- enough for 64 bits. All other loops recurse on their data.
--
-- Counters of type int64 that only grow are natural numbers. Times are natural numbers that the
-- definitions take, and durations are not negative. Floats are a record of operations, whose laws are
-- named where they are used.
--
-- What is not modelled: YAML, JSON, package flag, the crypto packages, package tls, random numbers and
-- the text of an IP address, which are functions that the definitions take; sockets, goroutine
-- scheduling and timers except as named above; the goroutines that carry a channel's bytes in
-- relayChannel and handlePublicConn; the wait for a stopped tunnel; the listener and path of the
-- control socket; what commands print, init and the ad-hoc modes of main.go; the pidfile and service
-- files of manager/daemon.go and manager/systemd.go, which are process control and fixed text.

pub mod Prelude
pub mod Relay
pub mod Manager
pub mod Command
pub mod Daemon
pub mod Forward
