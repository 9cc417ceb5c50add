-- ===== src/Relay/Proxy/Runs.antt =====
-- Concrete connections of relay/tcpproxy.go and relay/socks5proxy.go.
use tunnelmanager.Prelude.{
  ◌++◌, ◌-◌, ◌<◌, ◌∷◌, ◌≡◌, Bytes, Result, [], ap, arith, decimal, false, has_byte, join_host_port,
  none, ok, refl, some, text_eq, true,
}
use tunnelmanager.Relay.Conn.{write, Conn, read_full}
use tunnelmanager.Relay.Copy.{read_failed, Stats}
use tunnelmanager.Relay.Proxy.Totals.{
  dialled, closes, relayed, proxy_events, Totals, new_proxy-Totals,
}
use tunnelmanager.Relay.Socks5.{
  SocksTarget, SocksError, offers, choose_method, greeting, read_addr, read_request,
  socks_handshake,
}
use tunnelmanager.Relay.Proxy.{fresh_proxy, new_proxy}
use tunnelmanager.Relay.Proxy.Socks.{relays, to4, NetAddr, tcp_addr, packed_addr, socks_handle}
use tunnelmanager.Relay.Proxy.Socks.Reply.{read_reply, socks_handle-read_reply}

abbrev served_one : Stats
served_one = record { sent_bytes = 3; recv_bytes = 2; sent_err = none; recv_err = some read_failed }

new_proxy-Totals_example : Totals (
    proxy_events
      (dialled true ∷ dialled false ∷ dialled true ∷ relayed served_one ∷ closes ∷ [])
      (record { proxy = fresh_proxy; running = 0; past = [] }))
unfolding new_proxy
new_proxy-Totals_example =
    new_proxy-Totals
      (dialled true ∷ dialled false ∷ dialled true ∷ relayed served_one ∷ closes ∷ []) fresh_proxy
      refl

-- A client without authentication that asks for the host "a" and port 80.
abbrev asking : Conn
asking = record {
  input = 5 ∷ 1 ∷ 0 ∷ 5 ∷ 1 ∷ 0 ∷ 3 ∷ 1 ∷ 97 ∷ 0 ∷ 80 ∷ [];
  output = [];
  writes = 2;
}

abbrev no_ip : Bytes → Bytes
no_ip b = []

abbrev shaken : Result SocksError SocksTarget × Conn
shaken = socks_handshake no_ip [] [] asking

abbrev target : SocksTarget
target = record { raw = 3 ∷ 1 ∷ 97 ∷ 0 ∷ 80 ∷ []; addr = 97 ∷ 58 ∷ 56 ∷ 48 ∷ [] }

shaken_ok : shaken.0 ≡ ok target
unfolding text_eq offers join_host_port has_byte decimal socks_handshake greeting choose_method
    read_request read_addr read_full write
shaken_ok = refl

abbrev local_addr : NetAddr
local_addr = tcp_addr (10 ∷ 0 ∷ 0 ∷ 1 ∷ []) 4000

abbrev reading : Conn
reading = record {
  input = 5 ∷ 0 ∷ 0 ∷ 1 ∷ 10 ∷ 0 ∷ 0 ∷ 1 ∷ 15 ∷ 160 ∷ 7 ∷ [];
  output = [];
  writes = 0;
}

writes_left : 0 < shaken.1.writes
unfolding text_eq offers join_host_port has_byte decimal socks_handshake greeting choose_method
    read_request read_addr read_full write
writes_left = omega arith

socks_handle-read_reply_example :
    (socks_handle no_ip (λ a. some local_addr) [] [] asking ≡ (
      relays,
      record shaken.1 {
        output = shaken.1.output ++ (5 ∷ 0 ∷ 0 ∷ packed_addr local_addr);
        writes = shaken.1.writes - 1;
      },
    ))
    × (read_reply no_ip reading ≡ (ok (packed_addr local_addr), record reading { input = 7 ∷ [] }))
unfolding packed_addr to4
socks_handle-read_reply_example =
    socks_handle-read_reply no_ip (λ a. some local_addr) [] [] (7 ∷ []) asking shaken.1 reading
      target local_addr (ap (λ (r : Result SocksError SocksTarget). (r, shaken.1)) shaken_ok) refl
      writes_left refl
