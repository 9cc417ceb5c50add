-- ===== src/Relay/Frame/RoundTrip.antt =====
-- Frames of relay/ctrlframe.go, written and read back.
use tunnelmanager.Prelude.{
  ◌%◌, ◌*◌, ◌++◌, ◌+◌, ◌-◌, ◌/◌, ◌<◌, ◌^◌, ◌∷◌, ◌≡◌, ◌≤◌, All, All-append_left, Bytes, IsByte, [],
  append-nil, append_assoc, arith, bind_ok, err, false, get_or, get_u32, length, ltb, ok, put_u32,
  refl, subst, wrap, wrap_ok, ℕ,
}
use tunnelmanager.Relay.Conn.{Conn, read_full-append, write_ok, read_full, read_full_ok, write}
use tunnelmanager.Relay.Frame.{
  max_frame_payload, read_frame, frame_header, write_frame, Frame, too_large, read_header,
  read_body,
}

-- The bytes of a frame.
unfoldable pub encode_frame : ℕ → Bytes → Bytes
unfolding frame_header
encode_frame typ payload = frame_header typ payload ++ payload

empty_of_length : (xs : Bytes) → ltb 0 (length xs) ≡ false → xs ≡ []
empty_of_length [] h = refl
empty_of_length (x ∷ xs) h = ground arith

get-put_u32 : (n : ℕ) (rest : Bytes) → n < 2 ^ 32 → get_u32 (put_u32 n ++ rest) ≡ n
get-put_u32 n rest h = omega arith

-- WriteFrame of a payload within the limit succeeds on a connection that takes two more writes and
-- appends exactly the encoding of the frame.
pub write_frame-encode_frame :
    (c : Conn) (typ : ℕ) (payload : Bytes)
    → length payload ≤ max_frame_payload
    → 2 ≤ c.writes
    → ((write_frame typ payload c).0 ≡ ok tt)
      × ((write_frame typ payload c).1.output ≡ c.output ++ encode_frame typ payload)
unfolding write_frame encode_frame
write_frame-encode_frame c typ payload h w = ground (
  arith,
  write_ok c (frame_header typ payload) (omega arith),
  write_ok (record c { output = c.output ++ frame_header typ payload; writes = c.writes - 1 })
      payload (omega arith),
  append_assoc c.output (frame_header typ payload) payload,
  append-nil (c.output ++ frame_header typ payload),
  empty_of_length payload,
)

-- ReadFrame on the encoding of a frame within the limit returns that frame and leaves what
-- follows.
pub read_frame-encode_frame :
    (c : Conn) (typ : ℕ) (payload rest : Bytes)
    → length payload ≤ max_frame_payload
    → c.input ≡ encode_frame typ payload ++ rest
    → read_frame c ≡ (ok (record { type = typ; payload = payload }), record c { input = rest })
unfolding encode_frame read_frame
read_frame-encode_frame c typ payload rest h e = ground (
  arith,
  read_full-append c (frame_header typ payload) (payload ++ rest) 5,
  read_full-append (record c { input = payload ++ rest }) payload rest (length payload),
  get-put_u32 (length payload) (typ ∷ []),
  append_assoc (frame_header typ payload) payload rest,
  empty_of_length payload,
)

bytes_of_u32 :
    (b0 b1 b2 b3 : ℕ)
    → IsByte b0
    → IsByte b1
    → IsByte b2
    → IsByte b3
    → let n = b0 * 16777216 + b1 * 65536 + b2 * 256 + b3 in
      (n / 16777216 % 256 ≡ b0) × (n / 65536 % 256 ≡ b1) × (n / 256 % 256 ≡ b2) × (n % 256 ≡ b3)
bytes_of_u32 b0 b1 b2 b3 h0 h1 h2 h3 = omega arith

read_body_ok :
    (c d : Conn) (n : ℕ) (xs : Bytes)
    → read_body n c ≡ (ok xs, d)
    → (c.input ≡ xs ++ d.input) × (length xs ≡ n)
unfolding read_body
read_body_ok c d n xs h = ground (arith, read_full_ok c d n xs)

header_again :
    (h : Bytes) → length h ≡ 5 → All IsByte h → put_u32 (get_u32 h) ++ (get_or h 4 0 ∷ []) ≡ h
header_again [] e b = absurd (omega arith)
header_again (_ ∷ []) e b = absurd (omega arith)
header_again (_ ∷ _ ∷ []) e b = absurd (omega arith)
header_again (_ ∷ _ ∷ _ ∷ []) e b = absurd (omega arith)
header_again (_ ∷ _ ∷ _ ∷ _ ∷ []) e b = absurd (omega arith)
header_again (b0 ∷ b1 ∷ b2 ∷ b3 ∷ t ∷ []) e b = ground (arith, bytes_of_u32 b0 b1 b2 b3)
header_again (_ ∷ _ ∷ _ ∷ _ ∷ _ ∷ _ ∷ _) e b = absurd (omega arith)

-- When ReadFrame returns a frame from a stream of bytes, the stream began with exactly the
-- encoding of that frame, whose payload is within the limit, and the rest is left to read.
pub read_frame_sound :
    (c d : Conn) (f : Frame)
    → All IsByte c.input
    → read_frame c ≡ (ok f, d)
    → (c.input ≡ encode_frame f.type f.payload ++ d.input) × (length f.payload ≤ max_frame_payload)
unfolding read_frame encode_frame
read_frame_sound c d f b h =
    let (hd, c1, e1, h1) = bind_ok (wrap read_header (read_full 5)) _ c h in
    let r = read_full_ok c c1 5 hd (wrap_ok read_header (read_full 5) c e1) in
    let bytes = All-append_left IsByte hd c1.input (subst (All IsByte) r.0 b) in
    ground (
      arith,
      header_again hd r.1 bytes,
      read_body_ok c1 d (get_u32 hd) f.payload,
      append_assoc (frame_header f.type f.payload) f.payload d.input,
    )

-- A payload above 2^24 bytes and below 2^32 is refused by WriteFrame with nothing written, and a
-- header that announces one is refused by ReadFrame without touching the payload.
pub oversize_frame :
    (c r : Conn) (typ : ℕ) (payload rest : Bytes)
    → max_frame_payload < length payload
    → length payload < 2 ^ 32
    → r.input ≡ frame_header typ payload ++ rest
    → (write_frame typ payload c ≡ (err (too_large (length payload)), c))
      × (read_frame r ≡ (err (too_large (length payload)), record r { input = rest }))
unfolding write_frame read_frame
oversize_frame c r typ payload rest h w e = ground (
  arith,
  read_full-append r (frame_header typ payload) rest 5,
  get-put_u32 (length payload) (typ ∷ []),
)

-- Writing leaves alone what there is to read.
pub write_frame-input :
    (c : Conn) (typ : ℕ) (payload : Bytes) → (write_frame typ payload c).1.input ≡ c.input
unfolding write_frame write
write_frame-input c typ payload = ground arith

pub write_frame-writes :
    (c : Conn) (typ : ℕ) (payload : Bytes) → c.writes ≤ (write_frame typ payload c).1.writes + 2
unfolding write_frame write
write_frame-writes c typ payload = ground arith

pub read_frame-writes : (c : Conn) → (read_frame c).1.writes ≡ c.writes
unfolding read_frame read_full
read_frame-writes c = ground arith

-- Reading writes nothing.
pub read_frame-output : (c : Conn) → (read_frame c).1.output ≡ c.output
unfolding read_frame read_full
read_frame-output c = ground arith
