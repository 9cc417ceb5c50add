-- ===== src/Relay/Frame/Runs.antt =====
-- Frames of relay/ctrlframe.go on concrete connections.
use tunnelmanager.Prelude.{◌++◌, ◌∷◌, ◌≡◌, ◌≤◌, Bytes, [], arith, length, ok, refl, suc, zero, ℕ}
use tunnelmanager.Relay.Conn.{read_full, Conn}
use tunnelmanager.Relay.Frame.{max_frame_payload, Frame, read_body, read_frame}
use tunnelmanager.Relay.Frame.RoundTrip.{encode_frame, read_frame_sound}

-- A ping of one byte, and one byte of the next frame.
abbrev incoming : Conn
incoming = record { input = 0 ∷ 0 ∷ 0 ∷ 1 ∷ 1 ∷ 5 ∷ 9 ∷ []; output = []; writes = 2 }

abbrev ping : Frame
ping = record { type = 1; payload = 5 ∷ [] }

read_ping : read_frame incoming ≡ (ok ping, record incoming { input = 9 ∷ [] })
unfolding read_frame read_full read_body
read_ping = refl

read_frame_sound_example :
    (incoming.input ≡ encode_frame 1 (5 ∷ []) ++ (9 ∷ [])) × (1 ≤ max_frame_payload)
read_frame_sound_example =
    read_frame_sound incoming (record incoming { input = 9 ∷ [] }) ping (ground arith) read_ping

zeros : ℕ → Bytes
zeros zero = []
zeros (suc n) = 0 ∷ zeros n

length-zeros : (n : ℕ) → length (zeros n) ≡ n
unfolding zeros
length-zeros zero = refl
length-zeros (suc n) = omega (arith, length-zeros n)
