-- ===== src/Relay/Auth/Login.antt =====
-- The start of a control connection, from both ends: connect of relay/remoteclient.go against
-- handleClient of relay/remoteserver.go.
use tunnelmanager.Prelude.{
  ◌++◌, ◌+◌, ◌∙◌, ◌∷◌, ◌≡◌, ◌≤◌, All, Bool, Bool-cases, Bytes, IsU16, List, Result, Result-cases,
  [], ap, append-nil, append_assoc, arith, err, false, if◌then◌else◌, inl, inr, length, ok, refl,
  text_eq, ℕ,
}
use tunnelmanager.Relay.Register.{RemoteTunnel, pack_tunnels}
use tunnelmanager.Relay.Conn.{Conn}
use tunnelmanager.Relay.RemoteClient.{log_in, auth}
use tunnelmanager.Relay.Frame.{
  frame_auth_request, frame_register, max_frame_payload, write_frame, frame_auth_response,
}
use tunnelmanager.Relay.Auth.{
  auth_payload, auth_client, register_client, AuthError, token_mismatch, auth_server, rejected,
  bool_to_byte, answer, register_server,
}
use tunnelmanager.Relay.Frame.RoundTrip.{
  encode_frame, write_frame-encode_frame, read_frame-encode_frame, write_frame-input,
  write_frame-writes, read_frame-writes, read_frame-output,
}
use tunnelmanager.Relay.Auth.Tokens.{
  reply, auth_client-output, length_token, check_given, answer_lem, auth_client_lem,
}
use tunnelmanager.Relay.RemoteServer.{
  RemoteServer, auth_failed, turned_away, closing, serves, handle_client, track_conn, admit_client,
}
use tunnelmanager.Relay.Register.RoundTrip.{Fits, unpack_tunnels-pack_tunnels}

auth_client-writes : (given : Bytes) (c : Conn) → c.writes ≤ (auth_client given c).1.writes + 2
unfolding auth_client
auth_client-writes given c = ground (
  arith,
  write_frame-writes c frame_auth_request (auth_payload given),
  read_frame-writes (write_frame frame_auth_request (auth_payload given) c).1,
)

-- What the client sends behind its request: its tunnels, when it was accepted.
abbrev tail : Result AuthError (Unit {0}) → List RemoteTunnel → Bytes
tail (err e) ts = []
tail (ok u) ts = encode_frame frame_register (pack_tunnels ts)

log_in-output :
    (given : Bytes) (ts : List RemoteTunnel) (c : Conn)
    → text_eq given [] ≡ false
    → IsU16 (length given)
    → length (pack_tunnels ts) ≤ max_frame_payload
    → 4 ≤ c.writes
    → c.output ≡ []
    → (log_in given ts c).1.output
      ≡ encode_frame frame_auth_request (auth_payload given) ++ tail (auth_client given c).0 ts
unfolding log_in register_client
log_in-output given ts c t h small w o =
    let sent = auth_client-output given c h (omega arith) in
    let left = auth_client-writes given c in
    elim (Result-cases (auth_client given c).0) [
      | inl (u, p) ↦ ground (
        arith,
        write_frame-encode_frame (auth_client given c).1 frame_register (pack_tunnels ts) small
            (omega arith),
      )
      | inr (e, p) ↦
          ground (arith, append-nil (encode_frame frame_auth_request (auth_payload given)))
    ]

answer-input : (b : Bool) (c : Conn) → (answer b c).1.input ≡ c.input
unfolding answer
answer-input b c = ground (arith, write_frame-input c frame_auth_response (bool_to_byte b ∷ []))

auth_server-after :
    (token given rest : Bytes) (s : Conn)
    → IsU16 (length given)
    → 2 ≤ s.writes
    → s.input ≡ encode_frame frame_auth_request (auth_payload given) ++ rest
    → ((auth_server token s).0 ≡ (if text_eq given token then ok tt else err token_mismatch))
      × ((auth_server token s).1.output ≡ s.output ++ reply (text_eq given token))
      × ((auth_server token s).1.input ≡ rest)
unfolding auth_server
auth_server-after token given rest s h w e = ground (
  arith,
  read_frame-encode_frame s frame_auth_request (auth_payload given) rest
      (omega (arith, length_token given)) e,
  check_given token given h,
  answer_lem (text_eq given token) (record s { input = rest }) w,
  answer-input (text_eq given token) (record s { input = rest }),
)

register_server_lem :
    (ts : List RemoteTunnel) (s : Conn) (rest : Bytes)
    → IsU16 (length ts)
    → All Fits ts
    → length (pack_tunnels ts) ≤ max_frame_payload
    → s.input ≡ encode_frame frame_register (pack_tunnels ts) ++ rest
    → (register_server s).0 ≡ ok ts
unfolding register_server
register_server_lem ts s rest n f small e = ground (
  arith,
  read_frame-encode_frame s frame_register (pack_tunnels ts) rest small e,
  unpack_tunnels-pack_tunnels ts [] n f,
  append-nil (pack_tunnels ts),
)

register_server-output : (s : Conn) → (register_server s).1.output ≡ s.output
unfolding register_server
register_server-output s = ground (arith, read_frame-output s)

module _ (token : Bytes) (who : ℕ) (s : Conn) (rs : RemoteServer)
    (t : text_eq token [] ≡ false) where
  handle_client-output : (handle_client token who s rs).1.output ≡ (auth_server token s).1.output
  unfolding handle_client admit_client
  handle_client-output = elim (Result-cases (auth_server token s).0) [
    | inl (u, p) ↦ ground (arith, register_server-output (auth_server token s).1)
    | inr (e, p) ↦ ground arith
  ]

  refused_client :
      (e : AuthError)
      → (auth_server token s).0 ≡ err e
      → (handle_client token who s rs).0 ≡ turned_away (auth_failed e)
  unfolding handle_client admit_client
  refused_client e p = ground arith

  served_client :
      (ts : List RemoteTunnel)
      → (auth_server token s).0 ≡ ok tt
      → (register_server (auth_server token s).1).0 ≡ ok ts
      → (handle_client token who s rs).0 ≡ (if rs.closed then closing else serves ts)
  unfolding handle_client admit_client track_conn
  served_client ts p q = ground arith

module _ (given : Bytes) (ts : List RemoteTunnel) (c : Conn) (t : text_eq given [] ≡ false) where
  logged_in :
      length (pack_tunnels ts) ≤ max_frame_payload
      → 4 ≤ c.writes
      → (auth_client given c).0 ≡ ok tt
      → (log_in given ts c).0 ≡ ok tt
  unfolding log_in register_client
  logged_in small w p =
      let left = auth_client-writes given c in
      ground (
        arith,
        write_frame-encode_frame (auth_client given c).1 frame_register (pack_tunnels ts) small
            (omega arith),
      )

  not_logged_in :
      (e : AuthError) → (auth_client given c).0 ≡ err e → (log_in given ts c).0 ≡ err (auth e)
  unfolding log_in
  not_logged_in e p = ground arith

-- A client that has a token and a server that requires one, on fresh connections that take the
-- writes of both, each read what the other wrote. Then the client logs in exactly when the tokens
-- are equal, and the server serves the tunnels that the client registered, if it is not closing;
-- with different tokens, the client is rejected and the server turns it away. Token and tunnels
-- fit the wire format and the frame limit.
pub log_in-handle_client :
    (token given more rest : Bytes) (ts : List RemoteTunnel) (who : ℕ) (c s : Conn)
    (rs : RemoteServer)
    → text_eq given [] ≡ false
    → text_eq token [] ≡ false
    → IsU16 (length given)
    → IsU16 (length ts)
    → All Fits ts
    → length (pack_tunnels ts) ≤ max_frame_payload
    → 4 ≤ c.writes
    → 2 ≤ s.writes
    → c.output ≡ []
    → s.output ≡ []
    → s.input ≡ (log_in given ts c).1.output ++ more
    → c.input ≡ (handle_client token who s rs).1.output ++ rest
    → ((log_in given ts c).0 ≡ (if text_eq given token then ok tt else err (auth rejected)))
      × ((handle_client token who s rs).0 ≡ (
          if text_eq given token
          then (if rs.closed then closing else serves ts)
          else turned_away (auth_failed token_mismatch)))
log_in-handle_client token given more rest ts who c s rs t t' h n f small w w' o o' es ec =
    let b : Bool = text_eq given token in
    let auth_frame : Bytes = encode_frame frame_auth_request (auth_payload given) in
    let sent : s.input ≡ auth_frame ++ (tail (auth_client given c).0 ts ++ more) =
      es
      ∙ ap (λ (x : Bytes). x ++ more) (log_in-output given ts c t h small w o)
      ∙ append_assoc auth_frame (tail (auth_client given c).0 ts) more in
    let served =
      auth_server-after token given (tail (auth_client given c).0 ts ++ more) s h w' sent in
    let replied : c.input ≡ reply b ++ rest =
      ec
      ∙ ap (λ (x : Bytes). x ++ rest)
          (handle_client-output token who s rs t'
            ∙ served.1
            ∙ ap (λ (x : Bytes). x ++ reply b) o') in
    let got : (auth_client given c).0 ≡ (if b then ok tt else err rejected) =
      auth_client_lem given rest b c h (omega arith) replied in
    elim (Bool-cases b) [
      | inl p ↦
          let accepted' : (auth_client given c).0 ≡ ok tt = got ∙ rw p refl in
          let read : (register_server (auth_server token s).1).0 ≡ ok ts =
            register_server_lem ts (auth_server token s).1 more n f small
              (served.2 ∙ ap (λ (r : Result AuthError (Unit {0})). tail r ts ++ more) accepted') in
          rw p (
            logged_in given ts c t small w accepted',
            served_client token who s rs t' ts (served.0 ∙ rw p refl) read,
          )
      | inr p ↦ rw p (
        not_logged_in given ts c t rejected (got ∙ rw p refl),
        refused_client token who s rs t' token_mismatch (served.0 ∙ rw p refl),
      )
    ]
