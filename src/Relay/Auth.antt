-- ===== src/Relay/Auth.antt =====
-- relay/auth.go: the token handshake and the register message.
pub mod Login
pub mod Tokens
mod Runs
use tunnelmanager.Prelude.{
  ◌++◌, ◌-◌, ◌==◌, ◌>>=◌, ◌>>◌, ◌||◌, ◌∷◌, Action, Bool, Bytes, List, [], drop, false, get_or,
  get_u16, if◌then◌else◌, length, ltb, not, pure, put_u16, raise, text_eq, true, wrap, wrap_result,
  ℕ,
}
use tunnelmanager.Relay.Register.{RemoteTunnel, UnpackError, pack_tunnels, unpack_tunnels}
use tunnelmanager.Relay.Conn.{Conn}
use tunnelmanager.Relay.Frame.{
  frame_auth_request, frame_auth_response, frame_register, Frame, FrameError, read_frame,
  write_frame,
}

pub data AuthError : Type 0 where
  auth_io : FrameError → AuthError
  unexpected_frame : ℕ → AuthError
  short_payload length_mismatch : AuthError
  rejected token_mismatch : AuthError

pub bool_to_byte : Bool → ℕ
bool_to_byte true = 1
bool_to_byte false = 0

unfoldable pub auth_payload : Bytes → Bytes
auth_payload token = put_u16 (length token) ++ token

-- `len(frame.Payload) < 1 || frame.Payload[0] == 0`
abbrev refused : Bytes → Bool
refused payload = ltb (length payload) 1 || get_or payload 0 0 == 0

unfoldable pub auth_client : Bytes → Action Conn AuthError (Unit {0})
unfolding auth_payload
auth_client token = do
  wrap auth_io (write_frame frame_auth_request (auth_payload token))
  frame ← wrap auth_io read_frame
  if not (frame.type == frame_auth_response)
      then raise (unexpected_frame frame.type)
      else (if refused frame.payload then raise rejected else pure tt)

-- The reply is sent in either case, before the mismatch is reported.
pub answer : Bool → Action Conn AuthError (Unit {0})
unfolding bool_to_byte
answer same = do
  wrap auth_io (write_frame frame_auth_response (bool_to_byte same ∷ []))
  if same then pure tt else raise token_mismatch

pub check_request : Bytes → Frame → Action Conn AuthError (Unit {0})
unfolding answer
check_request token frame =
    if not (frame.type == frame_auth_request)
    then raise (unexpected_frame frame.type)
    else if ltb (length frame.payload) 2
    then raise short_payload
    else if not (get_u16 frame.payload == length frame.payload - 2)
    then raise length_mismatch
    else answer (text_eq (drop 2 frame.payload) token)

unfoldable pub auth_server : Bytes → Action Conn AuthError (Unit {0})
unfolding check_request
auth_server token = wrap auth_io read_frame >>= check_request token

unfoldable pub register_client : List RemoteTunnel → Action Conn FrameError (Unit {0})
register_client tunnels = write_frame frame_register (pack_tunnels tunnels)

pub data RegisterError : Type 0 where
  register_read : FrameError → RegisterError
  unexpected_register : ℕ → RegisterError
  unpack : UnpackError → RegisterError

unfoldable pub register_server : Action Conn RegisterError (List RemoteTunnel)
register_server = do
  frame ← wrap register_read read_frame
  if not (frame.type == frame_register)
      then raise (unexpected_register frame.type)
      else (λ c. (wrap_result unpack (unpack_tunnels frame.payload), c))
