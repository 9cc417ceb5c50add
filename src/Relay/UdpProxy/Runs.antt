-- ===== src/Relay/UdpProxy/Runs.antt =====
-- A concrete client of relay/udpproxy.go that sends, is answered and times out.
use tunnelmanager.Prelude.{◌∷◌, ◌≡◌, List, [], none, some, true}
use tunnelmanager.Relay.UdpProxy.{new_udp_proxy, is_open}
use tunnelmanager.Relay.UdpProxy.Sockets.{has_socket, Apart}
use tunnelmanager.Relay.UdpProxy.Events.{
  Event, packet_from, target_read, run_events, sockets_matched,
}

abbrev events : List Event
events =
    packet_from (97 ∷ []) (1 ∷ []) true 5
    ∷ target_read (97 ∷ []) (some (2 ∷ [])) 6
    ∷ packet_from (98 ∷ []) (3 ∷ []) true 7
    ∷ target_read (97 ∷ []) none 66
    ∷ []

sockets_matched_example :
    (is_open 1 (run_events events new_udp_proxy).open_sockets
      ≡ has_socket 1 (run_events events new_udp_proxy).sessions)
    × Apart (run_events events new_udp_proxy).sessions
sockets_matched_example = sockets_matched events 1
