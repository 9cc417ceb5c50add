-- ===== src/Relay/UdpProxy.antt =====
-- relay/udpproxy.go: the sessions of a UDP forwarding. A client is the text of its address, and a
-- socket to the target is a number.
pub mod Sockets
pub mod Events
mod Runs
use tunnelmanager.Prelude.{
  ◌+◌, ◌==◌, ◌||◌, ◌∷◌, Bool, Bytes, List, Option, [], false, if◌then◌else◌, none, some, text_eq,
  true, ℕ,
}

pub record UdpSession : Type 0 where
  pub client : Bytes
  pub socket : ℕ
  pub last_active : ℕ

-- `open_sockets` are the sockets dialled and not closed, `sent` the packets written to sockets and
-- `replies` those written to clients, latest first.
pub record UdpProxy : Type 0 where
  pub sessions : List (Bytes × UdpSession)
  pub closed : Bool
  pub next_socket : ℕ
  pub open_sockets : List ℕ
  pub sent : List (ℕ × Bytes)
  pub replies : List (Bytes × Bytes)

unfoldable pub new_udp_proxy : UdpProxy
new_udp_proxy = record {
  sessions = [];
  closed = false;
  next_socket = 0;
  open_sockets = [];
  sent = [];
  replies = [];
}

-- Go's map of sessions.
pub session_of : Bytes → List (Bytes × UdpSession) → Option UdpSession
session_of key [] = none
session_of key ((k, s) ∷ m) = if text_eq k key then some s else session_of key m

pub drop_session : Bytes → List (Bytes × UdpSession) → List (Bytes × UdpSession)
drop_session key [] = []
drop_session key ((k, s) ∷ m) =
    let rest = drop_session key m in if text_eq k key then rest else (k, s) ∷ rest

-- `sess.lastActive = time.Now()` through the pointer in the map.
pub touch : Bytes → ℕ → List (Bytes × UdpSession) → List (Bytes × UdpSession)
touch key now [] = []
touch key now ((k, s) ∷ m) =
    (k, if text_eq k key then record s { last_active = now } else s) ∷ touch key now m

-- A write to a closed socket fails, and the failure is ignored.
pub is_open : ℕ → List ℕ → Bool
is_open s [] = false
is_open s (t ∷ ts) = t == s || is_open s ts

pub write_target : ℕ → Bytes → UdpProxy → UdpProxy
unfolding is_open
write_target socket packet p =
    if is_open socket p.open_sockets then record p { sent = (socket, packet) ∷ p.sent } else p

-- The part of handlePacket under sessionsMu; `dialled` says whether net.DialUDP succeeds.
pub find_or_dial : Bytes → Bool → ℕ → UdpProxy → Option ℕ × UdpProxy
unfolding session_of touch
find_or_dial key dialled now p = elim (session_of key p.sessions) [
  | some s ↦ (some s.socket, record p { sessions = touch key now p.sessions })
  | none ↦
      if dialled
      then (
        some p.next_socket,
        record p {
          sessions =
              (key, record { client = key; socket = p.next_socket; last_active = now })
              ∷ p.sessions;
          next_socket = p.next_socket + 1;
          open_sockets = p.next_socket ∷ p.open_sockets;
        },
      )
      else (none, p)
]

unfoldable pub handle_packet : Bytes → Bytes → Bool → ℕ → UdpProxy → UdpProxy
unfolding find_or_dial write_target
handle_packet packet key dialled now p =
    let (socket, p') = find_or_dial key dialled now p in
    elim socket [ none ↦ p' | some s ↦ write_target s packet p' ]

pub close_socket : ℕ → List ℕ → List ℕ
close_socket s [] = []
close_socket s (t ∷ ts) = let rest = close_socket s ts in if t == s then rest else t ∷ rest

unfoldable pub remove_session : Bytes → UdpProxy → UdpProxy
unfolding session_of drop_session close_socket
remove_session key p = elim (session_of key p.sessions) [
  | none ↦ p
  | some s ↦ record p {
    sessions = drop_session key p.sessions;
    open_sockets = close_socket s.socket p.open_sockets;
  }
]

-- One turn of readFromTarget for the session of a client: the packet read, or a time-out or error.
unfoldable pub read_target_turn : Bytes → Option Bytes → ℕ → UdpProxy → UdpProxy
unfolding touch
read_target_turn client read now p = elim read [
  | none ↦ remove_session client p
  | some packet ↦ record p {
    sessions = touch client now p.sessions;
    replies = (client, packet) ∷ p.replies;
  }
]

pub close_sockets : List (Bytes × UdpSession) → List ℕ → List ℕ
unfolding close_socket
close_sockets [] sockets = sockets
close_sockets ((k, s) ∷ m) sockets = close_sockets m (close_socket s.socket sockets)

unfoldable pub close_proxy : UdpProxy → UdpProxy
unfolding close_sockets
close_proxy p = record p {
  closed = true;
  sessions = [];
  open_sockets = close_sockets p.sessions p.open_sockets;
}
