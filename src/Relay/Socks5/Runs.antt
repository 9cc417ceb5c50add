-- ===== src/Relay/Socks5/Runs.antt =====
-- A concrete client of relay/socks5.go, with the name "u" and the password "p".
use tunnelmanager.Prelude.{
  ◌++◌, ◌∷◌, ◌≡◌, Bytes, Result, [], ap, decimal, has_byte, join_host_port, length, ok, refl,
  text_eq, true,
}
use tunnelmanager.Relay.Conn.{read_full, write, Conn}
use tunnelmanager.Relay.Socks5.{
  socks_auth_password, SocksTarget, SocksError, ignoring, offers, choose_method, greeting,
  password_field, password_auth, read_addr, read_request, socks_handshake,
}
use tunnelmanager.Relay.Socks5.Access.{socks_access}
use tunnelmanager.Relay.Socks5.Connect.{credentials, greets, connects}

abbrev client : Conn
client = record {
  input =
      greets (0 ∷ 2 ∷ []) (credentials (117 ∷ []) (112 ∷ []) (connects (97 ∷ []) (0 ∷ 80 ∷ []) []));
  output = [];
  writes = 2;
}

abbrev no_ip : Bytes → Bytes
no_ip b = []

abbrev got_through : Result SocksError SocksTarget × Conn
got_through = socks_handshake no_ip (117 ∷ []) (112 ∷ []) client

abbrev asked : SocksTarget
asked = record { raw = 3 ∷ 1 ∷ 97 ∷ 0 ∷ 80 ∷ []; addr = 97 ∷ 58 ∷ 56 ∷ 48 ∷ [] }

result_ok : got_through.0 ≡ ok asked
unfolding text_eq offers join_host_port has_byte decimal socks_handshake greeting choose_method
    password_auth password_field ignoring read_request read_addr read_full write
result_ok = refl

goes_through : got_through ≡ (ok asked, got_through.1)
goes_through = ap (λ (r : Result SocksError SocksTarget). (r, got_through.1)) result_ok

socks_access_example :
    (methods rest : Bytes) × (client.input
      ≡ 5 ∷ length methods ∷ (methods ++ (1 ∷ 1 ∷ 117 ∷ 1 ∷ 112 ∷ rest)))
    × (offers socks_auth_password methods ≡ true)
unfolding text_eq
socks_access_example =
    socks_access no_ip (117 ∷ []) (112 ∷ []) client got_through.1 asked refl goes_through
