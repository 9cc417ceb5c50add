-- ===== src/Relay/Proxy/Socks.antt =====
-- relay/socks5proxy.go: SocksProxy.handle up to Relay, packedAddr, and socksReply of relay/socks5.go.
pub mod Reply
use tunnelmanager.Prelude.{
  ◌%◌, ◌&&◌, ◌++◌, ◌-◌, ◌/◌, ◌==◌, ◌∷◌, Action, Bytes, Option, Result, [], drop, err, get_or,
  if◌then◌else◌, length, none, ok, some, take, text_eq, ℕ,
}
use tunnelmanager.Relay.Conn.{write, WriteError, Conn}
use tunnelmanager.Relay.RemoteClient.{dial}
use tunnelmanager.Relay.Socks5.{
  socks_ver5, socks_atyp_ipv4, socks_atyp_ipv6, SocksError, socks_handshake, SocksTarget,
}

abbrev pub socks_rep_success : ℕ
socks_rep_success = 0

unfoldable pub socks_reply : ℕ → ℕ → Bytes → Bytes → Action Conn WriteError (Unit {0})
socks_reply rep atyp addr port = write (socks_ver5 ∷ rep ∷ 0 ∷ atyp ∷ (addr ++ port))

-- The first twelve bytes of an IPv4 address in sixteen bytes.
abbrev pub mapped_prefix : Bytes
mapped_prefix = 0 ∷ 0 ∷ 0 ∷ 0 ∷ 0 ∷ 0 ∷ 0 ∷ 0 ∷ 0 ∷ 0 ∷ 255 ∷ 255 ∷ []

-- net.IP.To4 and To16.
unfoldable pub to4 : Bytes → Option Bytes
to4 ip =
    if length ip == 4
    then some ip
    else if length ip == 16 && text_eq (take 12 ip) mapped_prefix
    then some (drop 12 ip)
    else none

unfoldable pub to16 : Bytes → Option Bytes
to16 ip =
    if length ip == 4 then some (mapped_prefix ++ ip) else if length ip == 16 then some ip else none

-- A net.Addr: one of a TCP connection, with its IP and port, or another one.
pub data NetAddr : Type 0 where
  tcp_addr : Bytes → ℕ → NetAddr
  other_addr : NetAddr

-- `byte(port >> 8)` and `byte(port)`.
abbrev pub port_bytes : ℕ → Bytes
port_bytes port = (port / 256) % 256 ∷ port % 256 ∷ []

unfoldable pub packed_addr : NetAddr → Bytes
packed_addr other_addr = socks_atyp_ipv4 ∷ 0 ∷ 0 ∷ 0 ∷ 0 ∷ 0 ∷ 0 ∷ []
packed_addr (tcp_addr ip port) = elim (to4 ip) [
  | some ip4 ↦ socks_atyp_ipv4 ∷ (ip4 ++ port_bytes port)
  | none ↦ elim (to16 ip) [
    | some ip16 ↦ socks_atyp_ipv6 ∷ (ip16 ++ port_bytes port)
    | none ↦ socks_atyp_ipv4 ∷ 0 ∷ 0 ∷ 0 ∷ 0 ∷ port_bytes port
  ]
]

-- The reply that handle sends on success: it takes the packed address apart again.
unfoldable pub reply_success : Bytes → Action Conn WriteError (Unit {0})
reply_success raw =
    let n = length raw in
    socks_reply socks_rep_success (get_or raw 0 0) (take (n - 2 - 1) (drop 1 raw))
      (drop (n - 2) raw)

-- How handle ends before Relay, or that it comes to Relay.
pub data SocksHandled : Type 0 where
  refused : SocksError → SocksHandled
  no_upstream reply_failed relays : SocksHandled

pub after_dial : Option NetAddr → Conn → SocksHandled × Conn
after_dial none c =
    (no_upstream, (socks_reply 4 socks_atyp_ipv4 (0 ∷ 0 ∷ 0 ∷ 0 ∷ []) (0 ∷ 0 ∷ []) c).1)
after_dial (some local) c =
    let (r, c') = reply_success (packed_addr local) c in
    (elim r [ ok _ ↦ relays | err _ ↦ reply_failed ], c')

-- `dial` is net.Dial of the target, with the local address of the connection.
pub answer_target :
    (Bytes → Option NetAddr) → Result SocksError SocksTarget × Conn → SocksHandled × Conn
unfolding after_dial
answer_target dial (err e, c) = (refused e, c)
answer_target dial (ok target, c) = after_dial (dial target.addr) c

unfoldable pub socks_handle :
    (Bytes → Bytes) → (Bytes → Option NetAddr) → Bytes → Bytes → Conn → SocksHandled × Conn
unfolding answer_target
socks_handle ip_string dial user pass c = answer_target dial (socks_handshake ip_string user pass c)
