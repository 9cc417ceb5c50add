-- ===== src/Relay/Frame.antt =====
-- relay/ctrlframe.go: frames of a type byte and a payload behind a 32-bit length.
pub mod RoundTrip
mod Runs
use tunnelmanager.Prelude.{
  ◌++◌, ◌>>=◌, ◌>>◌, ◌^◌, ◌∷◌, Action, Bytes, [], get_or, get_u32, if◌then◌else◌, length, ltb, pure,
  put_u32, raise, wrap, ℕ,
}
use tunnelmanager.Relay.Conn.{Conn, ReadError, WriteError, read_full, write}

abbrev pub frame_ping : ℕ
frame_ping = 0x01

abbrev pub frame_pong : ℕ
frame_pong = 0x02

abbrev pub frame_new_channel : ℕ
frame_new_channel = 0x03

abbrev pub frame_channel_data : ℕ
frame_channel_data = 0x04

abbrev pub frame_channel_close : ℕ
frame_channel_close = 0x05

abbrev pub frame_auth_request : ℕ
frame_auth_request = 0x06

abbrev pub frame_auth_response : ℕ
frame_auth_response = 0x07

abbrev pub frame_register : ℕ
frame_register = 0x08

abbrev pub frame_window_update : ℕ
frame_window_update = 0x09

abbrev pub max_frame_payload : ℕ
max_frame_payload = 2 ^ 24

pub record Frame : Type 0 where
  pub type : ℕ
  pub payload : Bytes

pub data FrameError : Type 0 where
  read_header read_payload : ReadError → FrameError
  too_large : ℕ → FrameError
  write_header write_payload : WriteError → FrameError

-- The payload is read only when the announced length is not 0.
read_body : ℕ → Action Conn FrameError Bytes
read_body n = if ltb 0 n then wrap read_payload (read_full n) else pure []

unfoldable pub read_frame : Action Conn FrameError Frame
unfolding read_body
read_frame = do
  header ← wrap read_header (read_full 5)
  let size = get_u32 header
  let typ = get_or header 4 0
  if ltb max_frame_payload size
      then raise (too_large size)
      else (read_body size >>= λ payload. pure (record { type = typ; payload = payload }))

pub frame_header : ℕ → Bytes → Bytes
frame_header typ payload = put_u32 (length payload) ++ (typ ∷ [])

write_body : Bytes → Action Conn FrameError (Unit {0})
write_body payload = if ltb 0 (length payload) then wrap write_payload (write payload) else pure tt

unfoldable pub write_frame : ℕ → Bytes → Action Conn FrameError (Unit {0})
unfolding frame_header write_body
write_frame typ payload =
    if ltb max_frame_payload (length payload)
    then raise (too_large (length payload))
    else (do wrap write_header (write (frame_header typ payload)); write_body payload)
