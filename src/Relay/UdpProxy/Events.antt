-- ===== src/Relay/UdpProxy/Events.antt =====
-- Every sequence of events on a proxy of relay/udpproxy.go keeps sockets and sessions together.
use tunnelmanager.Prelude.{
  ◌+◌, ◌∙◌, ◌∷◌, ◌≡◌, Bool, Bool-cases, Bytes, List, Option, Option-cases, [], arith, false,
  if_both, if◌then◌else◌, inl, inr, none, refl, some, sym, ℕ,
}
use tunnelmanager.Relay.UdpProxy.Sockets.{
  Inv, has_socket, Apart, new_udp_proxy-Inv, has_socket-touch, touch-Apart, is_open-close_socket,
  has_socket-drop_session, drop_session-Apart,
}
use tunnelmanager.Relay.UdpProxy.{
  UdpSession, UdpProxy, new_udp_proxy, session_of, touch, is_open, write_target, find_or_dial,
  handle_packet, close_socket, remove_session, read_target_turn, close_sockets, close_proxy,
}

touched-Inv :
    (key : Bytes) (now : ℕ) (p : UdpProxy)
    → Inv p
    → Inv (record p { sessions = touch key now p.sessions })
touched-Inv key now p v = record {
  apart = touch-Apart key now p.sessions v.apart;
  matched = λ n. v.matched n ∙ sym (has_socket-touch n key now p.sessions);
  old = v.old;
}

dialled-Inv :
    (key : Bytes) (now : ℕ) (p : UdpProxy)
    → session_of key p.sessions ≡ none
    → Inv p
    → Inv (record p {
      sessions =
          (key, record { client = key; socket = p.next_socket; last_active = now }) ∷ p.sessions;
      next_socket = p.next_socket + 1;
      open_sockets = p.next_socket ∷ p.open_sockets;
    })
unfolding has_socket is_open
dialled-Inv key now p e v = record {
  apart = (sym (v.matched p.next_socket) ∙ v.old p.next_socket (omega arith), e, v.apart);
  matched = λ n. ground (arith, v.matched n);
  old = λ n h. ground (arith, v.old n);
}

find_or_dial-Inv :
    (key : Bytes) (dialled : Bool) (now : ℕ) (p : UdpProxy)
    → Inv p
    → Inv (find_or_dial key dialled now p).1
unfolding find_or_dial
find_or_dial-Inv key dialled now p v = elim (Option-cases (session_of key p.sessions)) [
  | inr (s, e) ↦ rw (e, find_or_dial) (touched-Inv key now p v)
  | inl e ↦ elim (Bool-cases dialled) [
    | inl off ↦ rw (e, off, find_or_dial) (dialled-Inv key now p e v)
    | inr off ↦ rw (e, off, find_or_dial) v
  ]
]

write_target-Inv : (s : ℕ) (packet : Bytes) (p : UdpProxy) → Inv p → Inv (write_target s packet p)
unfolding write_target
write_target-Inv s packet p v =
    if_both Inv (is_open s p.open_sockets)
      (record { apart = v.apart; matched = v.matched; old = v.old }) v

handle_packet-Inv :
    (packet key : Bytes) (dialled : Bool) (now : ℕ) (p : UdpProxy)
    → Inv p
    → Inv (handle_packet packet key dialled now p)
unfolding handle_packet
handle_packet-Inv packet key dialled now p v =
    go (find_or_dial key dialled now p) (find_or_dial-Inv key dialled now p v)
  where
    go :
        (r : Option ℕ × UdpProxy)
        → Inv r.1
        → Inv (elim r.0 [ none ↦ r.1 | some s ↦ write_target s packet r.1 ])
    go (none, q) w = w
    go (some s, q) w = write_target-Inv s packet q w

remove_session-Inv : (key : Bytes) (p : UdpProxy) → Inv p → Inv (remove_session key p)
unfolding remove_session
remove_session-Inv key p v = elim (Option-cases (session_of key p.sessions)) [
  | inl e ↦ rw (e, remove_session) v
  | inr (s, e) ↦
      rw (e, remove_session)
        (record {
          apart = drop_session-Apart key p.sessions v.apart;
          matched = λ n. ground (
            arith,
            is_open-close_socket n s.socket p.open_sockets,
            has_socket-drop_session n key s p.sessions v.apart e,
            v.matched n,
          );
          old = λ n h. ground (arith, is_open-close_socket n s.socket p.open_sockets, v.old n h);
        })
]

is_open-close_sockets :
    (n : ℕ) (m : List (Bytes × UdpSession)) (sockets : List ℕ)
    → is_open n (close_sockets m sockets) ≡ (if has_socket n m then false else is_open n sockets)
unfolding close_sockets has_socket
is_open-close_sockets n [] sockets = refl
is_open-close_sockets n ((k, s) ∷ m) sockets = ground (
  arith,
  is_open-close_sockets n m (close_socket s.socket sockets),
  is_open-close_socket n s.socket sockets,
)

close_proxy-Inv : (p : UdpProxy) → Inv p → Inv (close_proxy p)
unfolding close_proxy has_socket
close_proxy-Inv p v = record {
  apart = tt;
  matched = λ n. ground (arith, is_open-close_sockets n p.sessions p.open_sockets, v.matched n);
  old = λ n h. ground (arith, is_open-close_sockets n p.sessions p.open_sockets, v.old n h);
}

-- What the goroutines of a proxy do, one after the other: a packet of a client, a turn of the
-- reader of a client's session, and Close.
pub data Event : Type 0 where
  packet_from : Bytes → Bytes → Bool → ℕ → Event
  target_read : Bytes → Option Bytes → ℕ → Event
  shut : Event

pub run_event : Event → UdpProxy → UdpProxy
run_event (packet_from key packet dialled now) p = handle_packet packet key dialled now p
run_event (target_read client read now) p = read_target_turn client read now p
run_event shut p = close_proxy p

pub run_events : List Event → UdpProxy → UdpProxy
unfolding run_event
run_events [] p = p
run_events (e ∷ es) p = run_events es (run_event e p)

run_event-Inv : (e : Event) (p : UdpProxy) → Inv p → Inv (run_event e p)
unfolding run_event read_target_turn
run_event-Inv (packet_from key packet dialled now) p v =
    handle_packet-Inv packet key dialled now p v
run_event-Inv (target_read client none now) p v = remove_session-Inv client p v
run_event-Inv (target_read client (some packet) now) p v =
    let w = touched-Inv client now p v in
    record { apart = w.apart; matched = w.matched; old = w.old }
run_event-Inv shut p v = close_proxy-Inv p v

run_events-Inv : (es : List Event) (p : UdpProxy) → Inv p → Inv (run_events es p)
unfolding run_events
run_events-Inv [] p v = v
run_events-Inv (e ∷ es) p v = run_events-Inv es (run_event e p) (run_event-Inv e p v)

-- After any sequence of client packets, reads and failures of target sockets and Close, a target
-- socket is open exactly when a session of the map uses it, no two sessions share a socket and no
-- client has two sessions.
pub sockets_matched :
    (es : List Event) (n : ℕ)
    → let p = run_events es new_udp_proxy in
      (is_open n p.open_sockets ≡ has_socket n p.sessions) × Apart p.sessions
sockets_matched es n =
    let v = run_events-Inv es new_udp_proxy new_udp_proxy-Inv in (v.matched n, v.apart)
