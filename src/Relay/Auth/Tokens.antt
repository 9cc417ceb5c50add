-- ===== src/Relay/Auth/Tokens.antt =====
-- The token handshake of relay/auth.go, client against server.
use tunnelmanager.Prelude.{
  ◌++◌, ◌+◌, ◌↔◌, ◌∙◌, ◌∷◌, ◌≡◌, ◌≤◌, All, Bool, Bytes, IsU16, List, [], append-nil, arith, err,
  fun_ext, get_u16, if◌then◌else◌, length, ok, put_u16, text_eq, text_eq_iff, ℕ,
}
use tunnelmanager.Relay.Conn.{Conn}
use tunnelmanager.Relay.Frame.{
  frame_auth_request, frame_auth_response, frame_register, max_frame_payload, write_frame,
}
use tunnelmanager.Relay.Auth.{
  token_mismatch, bool_to_byte, auth_payload, answer, check_request, auth_server, rejected,
  auth_client, register_client, register_server,
}
use tunnelmanager.Relay.Frame.RoundTrip.{
  encode_frame, write_frame-encode_frame, read_frame-encode_frame, write_frame-input,
  read_frame-output,
}
use tunnelmanager.Relay.Register.{RemoteTunnel, pack_tunnels}
use tunnelmanager.Relay.Register.RoundTrip.{Fits, unpack_tunnels-pack_tunnels}

pub length_token : (token : Bytes) → length (auth_payload token) ≡ length token + 2
unfolding auth_payload
length_token token = omega arith

get-put_u16 : (n : ℕ) (rest : Bytes) → IsU16 n → get_u16 (put_u16 n ++ rest) ≡ n
get-put_u16 n rest h = omega arith

-- What the server makes of the request that a client with the token `given` sends.
pub check_given :
    (token given : Bytes)
    → IsU16 (length given)
    → check_request token (record { type = frame_auth_request; payload = auth_payload given })
      ≡ answer (text_eq given token)
unfolding check_request auth_payload
check_given token given h = fun_ext λ c. ground arith

abbrev pub reply : Bool → Bytes
reply b = encode_frame frame_auth_response (bool_to_byte b ∷ [])

pub answer_lem :
    (b : Bool) (c : Conn)
    → 2 ≤ c.writes
    → ((answer b c).0 ≡ (if b then ok tt else err token_mismatch))
      × ((answer b c).1.output ≡ c.output ++ reply b)
unfolding answer
answer_lem b c w =
    ground
      (arith, write_frame-encode_frame c frame_auth_response (bool_to_byte b ∷ []) (omega arith) w)

-- A server accepts the client's request exactly when the tokens are equal, and answers 1 then and
-- 0 otherwise.
pub auth_server-auth_client :
    (token given rest : Bytes) (s : Conn)
    → IsU16 (length given)
    → 2 ≤ s.writes
    → s.input ≡ encode_frame frame_auth_request (auth_payload given) ++ rest
    → let r = auth_server token s in
      ((r.0 ≡ ok tt) ↔ (given ≡ token)) × (r.1.output ≡ s.output ++ reply (text_eq given token))
unfolding auth_server
auth_server-auth_client token given rest s h w e = ground (
  arith,
  read_frame-encode_frame s frame_auth_request (auth_payload given) rest
      (omega (arith, length_token given)) e,
  check_given token given h,
  answer_lem (text_eq given token) (record s { input = rest }) w,
  text_eq_iff given token,
)

-- The request goes out whatever comes back.
pub auth_client-output :
    (given : Bytes) (c : Conn)
    → IsU16 (length given)
    → 2 ≤ c.writes
    → (auth_client given c).1.output
      ≡ c.output ++ encode_frame frame_auth_request (auth_payload given)
unfolding auth_client
auth_client-output given c h w = ground (
  arith,
  write_frame-encode_frame c frame_auth_request (auth_payload given)
      (omega (arith, length_token given)) w,
  read_frame-output (write_frame frame_auth_request (auth_payload given) c).1,
)

pub auth_client_lem :
    (given rest : Bytes) (b : Bool) (c : Conn)
    → IsU16 (length given)
    → 2 ≤ c.writes
    → c.input ≡ reply b ++ rest
    → (auth_client given c).0 ≡ (if b then ok tt else err rejected)
unfolding auth_client bool_to_byte
auth_client_lem given rest b c h w e = ground (
  arith,
  write_frame-encode_frame c frame_auth_request (auth_payload given)
      (omega (arith, length_token given)) w,
  write_frame-input c frame_auth_request (auth_payload given),
  read_frame-encode_frame (write_frame frame_auth_request (auth_payload given) c).1
      frame_auth_response (bool_to_byte b ∷ []) rest (omega arith),
)

-- When a client and a server, with nothing written before, on connections that take two more
-- writes, each read what the other wrote, and the length of the client's token fits 16 bits, then
-- the client reports success exactly when the tokens are equal, and so does the server.
pub handshake :
    (token given more rest : Bytes) (c s : Conn)
    → IsU16 (length given)
    → 2 ≤ c.writes
    → 2 ≤ s.writes
    → c.output ≡ []
    → s.output ≡ []
    → s.input ≡ (auth_client given c).1.output ++ more
    → c.input ≡ (auth_server token s).1.output ++ rest
    → (((auth_client given c).0 ≡ ok tt) ↔ (given ≡ token))
      × (((auth_server token s).0 ≡ ok tt) ↔ (given ≡ token))
handshake token given more rest c s h wc ws oc os es ec =
    let sent = auth_client-output given c h wc in
    let (verdict, answered) =
      auth_server-auth_client token given more s h ws (es ∙ rw (sent, oc)) in
    let got = auth_client_lem given rest (text_eq given token) c h wc (ec ∙ rw (answered, os)) in
    (ground (arith, text_eq_iff given token), verdict)

-- The server reads from the register frame of a client, which begins its output on a connection
-- that takes two more writes, exactly the list of tunnels that the client registered, when the
-- list fits the wire format and the frame limit.
pub register_server-register_client :
    (ts : List RemoteTunnel) (c s : Conn) (rest : Bytes)
    → IsU16 (length ts)
    → All Fits ts
    → length (pack_tunnels ts) ≤ max_frame_payload
    → 2 ≤ c.writes
    → c.output ≡ []
    → s.input ≡ (register_client ts c).1.output ++ rest
    → ((register_client ts c).0 ≡ ok tt) × (register_server s ≡ (ok ts, record s { input = rest }))
unfolding register_client register_server
register_server-register_client ts c s rest n f small w o e = ground (
  arith,
  write_frame-encode_frame c frame_register (pack_tunnels ts) small w,
  read_frame-encode_frame s frame_register (pack_tunnels ts) rest small,
  unpack_tunnels-pack_tunnels ts [] n f,
  append-nil (pack_tunnels ts),
)
