-- ===== src/Relay/Auth/Runs.antt =====
-- The handshake of relay/auth.go between two concrete connections.
use tunnelmanager.Prelude.{◌++◌, ◌∷◌, ◌≡◌, Bytes, [], arith, ok, refl, text_eq}
use tunnelmanager.Relay.Conn.{Conn, read_full, write}
use tunnelmanager.Relay.Register.{
  unpack_tunnels, RemoteTunnel, pack_entry, pack_entries, pack_tunnels,
}
use tunnelmanager.Relay.Frame.{read_frame, write_frame}
use tunnelmanager.Relay.Auth.{
  bool_to_byte, auth_payload, auth_client, answer, check_request, auth_server, register_client,
  register_server,
}
use tunnelmanager.Relay.RemoteClient.{log_in}
use tunnelmanager.Relay.RemoteServer.{new_server, track_conn, admit_client, serves, handle_client}
use tunnelmanager.Relay.Auth.Login.{log_in-handle_client}

abbrev token : Bytes
token = 115 ∷ 51 ∷ []

-- What the server answers to the right token, and what it reads.
abbrev client : Conn
client = record { input = 0 ∷ 0 ∷ 0 ∷ 1 ∷ 7 ∷ 1 ∷ []; output = []; writes = 2 }

abbrev server : Conn
server = record { input = 0 ∷ 0 ∷ 0 ∷ 4 ∷ 6 ∷ 0 ∷ 2 ∷ 115 ∷ 51 ∷ []; output = []; writes = 2 }

abbrev web : RemoteTunnel
web = record { remote_port = 8080; bind_addr = []; target_addr = 97 ∷ 58 ∷ 49 ∷ [] }

abbrev new_client : Conn
new_client = record client { writes = 4 }

abbrev accepted_conn : Conn
accepted_conn = record {
  input =
      server.input ++ (0 ∷ 0 ∷ 0 ∷ 11 ∷ 8 ∷ 0 ∷ 1 ∷ 31 ∷ 144 ∷ 0 ∷ 0 ∷ 0 ∷ 3 ∷ 97 ∷ 58 ∷ 49 ∷ []);
  output = [];
  writes = 2;
}

log_in-handle_client_example :
    ((log_in token (web ∷ []) new_client).0 ≡ ok tt)
    × ((handle_client token 1 accepted_conn new_server).0 ≡ serves (web ∷ []))
unfolding auth_client auth_server auth_payload bool_to_byte check_request answer write_frame
    read_frame read_full write text_eq log_in handle_client admit_client track_conn register_client
    register_server pack_tunnels pack_entries pack_entry new_server unpack_tunnels
log_in-handle_client_example =
    log_in-handle_client token token [] [] (web ∷ []) 1 new_client accepted_conn new_server refl
      refl (omega arith) (omega arith)
      (record { port_fits = omega arith; bind_fits = omega arith; target_fits = omega arith }, tt)
      (omega arith) (omega arith) (omega arith) refl refl refl refl
