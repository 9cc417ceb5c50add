-- ===== src/Relay/UdpProxy/Sockets.antt =====
-- The target sockets of relay/udpproxy.go against its sessions.
use tunnelmanager.Prelude.{
  ◌==◌, ◌||◌, ◌∷◌, ◌≡◌, ◌≤◌, Bool, Bytes, List, [], arith, false, if_both, if◌then◌else◌, none,
  refl, some, text_eq, text_eq_iff, true, ℕ,
}
use tunnelmanager.Relay.UdpProxy.{
  UdpSession, UdpProxy, new_udp_proxy, session_of, drop_session, touch, is_open, close_socket,
}

unfoldable pub has_socket : ℕ → List (Bytes × UdpSession) → Bool
has_socket n [] = false
has_socket n ((k, s) ∷ m) = s.socket == n || has_socket n m

-- No two sessions share a socket, and no client has two sessions.
abbrev pub Apart : List (Bytes × UdpSession) → Type 0
Apart [] = Unit
Apart ((k, s) ∷ m) = (has_socket s.socket m ≡ false) × (session_of k m ≡ none) × Apart m

-- The open sockets are those of the sessions: none leaks and no session has lost its own.
pub record Inv (p : UdpProxy) : Type 0 where
  pub apart : Apart p.sessions
  pub matched : (n : ℕ) → is_open n p.open_sockets ≡ has_socket n p.sessions
  pub old : (n : ℕ) → p.next_socket ≤ n → is_open n p.open_sockets ≡ false

pub new_udp_proxy-Inv : Inv new_udp_proxy
unfolding new_udp_proxy is_open has_socket
new_udp_proxy-Inv = record { apart = tt; matched = λ n. refl; old = λ n h. refl }

pub has_socket-touch :
    (n : ℕ) (key : Bytes) (now : ℕ) (m : List (Bytes × UdpSession))
    → has_socket n (touch key now m) ≡ has_socket n m
unfolding has_socket touch
has_socket-touch n key now [] = refl
has_socket-touch n key now ((k, s) ∷ m) = ground (arith, has_socket-touch n key now m)

session_of-touch :
    (j key : Bytes) (now : ℕ) (m : List (Bytes × UdpSession))
    → session_of j m ≡ none
    → session_of j (touch key now m) ≡ none
unfolding session_of touch
session_of-touch j key now [] h = refl
session_of-touch j key now ((k, s) ∷ m) h = ground (arith, session_of-touch j key now m)

pub touch-Apart :
    (key : Bytes) (now : ℕ) (m : List (Bytes × UdpSession)) → Apart m → Apart (touch key now m)
unfolding touch
touch-Apart key now [] h = tt
touch-Apart key now ((k, s) ∷ m) h = (
  ground (arith, has_socket-touch s.socket key now m, h.0),
  session_of-touch k key now m h.1,
  touch-Apart key now m h.2,
)

pub is_open-close_socket :
    (n s : ℕ) (ts : List ℕ)
    → is_open n (close_socket s ts) ≡ (if s == n then false else is_open n ts)
unfolding is_open close_socket
is_open-close_socket n s [] = ground arith
is_open-close_socket n s (t ∷ ts) = ground (arith, is_open-close_socket n s ts)

session_of-drop_session :
    (j key : Bytes) (m : List (Bytes × UdpSession))
    → session_of j m ≡ none
    → session_of j (drop_session key m) ≡ none
unfolding session_of drop_session
session_of-drop_session j key [] h = refl
session_of-drop_session j key ((k, s) ∷ m) h = ground (arith, session_of-drop_session j key m)

drop_session-none :
    (key : Bytes) (m : List (Bytes × UdpSession)) → session_of key m ≡ none → drop_session key m ≡ m
unfolding session_of drop_session
drop_session-none key [] h = refl
drop_session-none key ((k, s) ∷ m) h = ground (arith, drop_session-none key m)

session_has_socket :
    (key : Bytes) (s : UdpSession) (m : List (Bytes × UdpSession))
    → session_of key m ≡ some s
    → has_socket s.socket m ≡ true
unfolding session_of has_socket
session_has_socket key s [] h = cc
session_has_socket key s ((k, t) ∷ m) h = ground (arith, session_has_socket key s m)

pub has_socket-drop_session :
    (n : ℕ) (key : Bytes) (s : UdpSession) (m : List (Bytes × UdpSession))
    → Apart m
    → session_of key m ≡ some s
    → has_socket n (drop_session key m) ≡ (if s.socket == n then false else has_socket n m)
unfolding has_socket session_of drop_session
has_socket-drop_session n key s [] a h = cc
has_socket-drop_session n key s ((k, t) ∷ m) a h = ground (
  arith,
  text_eq_iff k key,
  drop_session-none key m,
  a.0,
  a.1,
  has_socket-drop_session n key s m a.2,
  session_has_socket key s m,
)

has_socket-drop_false :
    (n : ℕ) (key : Bytes) (m : List (Bytes × UdpSession))
    → has_socket n m ≡ false
    → has_socket n (drop_session key m) ≡ false
unfolding has_socket drop_session
has_socket-drop_false n key [] h = refl
has_socket-drop_false n key ((k, s) ∷ m) h = ground (arith, has_socket-drop_false n key m)

pub drop_session-Apart :
    (key : Bytes) (m : List (Bytes × UdpSession)) → Apart m → Apart (drop_session key m)
unfolding drop_session
drop_session-Apart key [] a = tt
drop_session-Apart key ((k, s) ∷ m) a =
    if_both Apart (text_eq k key) (drop_session-Apart key m a.2) (
      has_socket-drop_false s.socket key m a.0,
      session_of-drop_session k key m a.1,
      drop_session-Apart key m a.2,
    )
