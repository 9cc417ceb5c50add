-- ===== src/Relay/Register/RoundTrip.antt =====
-- The register payload of relay/ctrlconn.go, packed and unpacked.
use tunnelmanager.Prelude.{
  ◌++◌, ◌∷◌, ◌≡◌, All, Bytes, IsByte, IsU16, List, [], append-nil, append_assoc, arith, drop,
  drop-append_left, get_u16, length, length-append, length-take, ok, put_u16, take-append-drop,
  take-append_left, ℕ,
}
use tunnelmanager.Relay.Register.{
  RemoteTunnel, UnpackError, short_payload, short_entry, short_bind, short_target_length,
  short_target, pack_entry, pack_entries, pack_tunnels, cut, unpack_entry, unpack_loop,
  unpack_tunnels,
}

-- What packTunnels can represent: 16-bit ports and lengths.
pub record Fits (t : RemoteTunnel) : Type 0 where
  pub port_fits : IsU16 t.remote_port
  pub bind_fits : IsU16 (length t.bind_addr)
  pub target_fits : IsU16 (length t.target_addr)

cut-append :
    (n : ℕ) (e : UnpackError) (xs rest : Bytes)
    → n ≡ length xs
    → cut n e (xs ++ rest) ≡ (ok xs, rest)
unfolding cut
cut-append n e xs rest h =
    ground (arith, take-append_left xs rest, drop-append_left xs rest, length-append xs rest)

get-put_u16 : (n : ℕ) (rest : Bytes) → IsU16 n → get_u16 (put_u16 n ++ rest) ≡ n
get-put_u16 n rest h = omega arith

pub entry_bytes :
    (t : RemoteTunnel) (rest : Bytes)
    → pack_entry t ++ rest
      ≡ (put_u16 t.remote_port ++ put_u16 (length t.bind_addr))
        ++ (t.bind_addr ++ (put_u16 (length t.target_addr) ++ (t.target_addr ++ rest)))
unfolding pack_entry
entry_bytes t rest = simp append_assoc

unpack-pack_entry :
    (t : RemoteTunnel) (rest : Bytes) → Fits t → unpack_entry (pack_entry t ++ rest) ≡ (ok t, rest)
unfolding unpack_entry
unpack-pack_entry t rest f = ground (
  arith,
  entry_bytes t rest,
  cut-append 4 short_entry (put_u16 t.remote_port ++ put_u16 (length t.bind_addr))
      (t.bind_addr ++ (put_u16 (length t.target_addr) ++ (t.target_addr ++ rest))),
  cut-append (length t.bind_addr) short_bind t.bind_addr
      (put_u16 (length t.target_addr) ++ (t.target_addr ++ rest)),
  cut-append 2 short_target_length (put_u16 (length t.target_addr)) (t.target_addr ++ rest),
  cut-append (length t.target_addr) short_target t.target_addr rest,
  get-put_u16 t.remote_port (put_u16 (length t.bind_addr)) f.port_fits,
  get-put_u16 (length t.bind_addr) [] f.bind_fits,
  get-put_u16 (length t.target_addr) [] f.target_fits,
)

unpack_loop-pack_entries :
    (ts acc : List RemoteTunnel) (rest : Bytes)
    → All Fits ts
    → unpack_loop (length ts) acc (pack_entries ts ++ rest) ≡ (ok (acc ++ ts), rest)
unfolding unpack_loop pack_entries
unpack_loop-pack_entries [] acc rest f = rw append-nil
unpack_loop-pack_entries (t ∷ ts) acc rest (f, fs) = ground (
  arith,
  append_assoc (pack_entry t) (pack_entries ts) rest,
  unpack-pack_entry t (pack_entries ts ++ rest) f,
  unpack_loop-pack_entries ts (acc ++ (t ∷ [])) rest fs,
  append_assoc acc (t ∷ []) ts,
)

-- Unpacking a packed list of tunnels that fits the wire format gives the list back, whatever
-- follows it.
pub unpack_tunnels-pack_tunnels :
    (ts : List RemoteTunnel) (rest : Bytes)
    → IsU16 (length ts)
    → All Fits ts
    → unpack_tunnels (pack_tunnels ts ++ rest) ≡ ok ts
unfolding unpack_tunnels pack_tunnels
unpack_tunnels-pack_tunnels ts rest n f = ground (
  arith,
  append_assoc (put_u16 (length ts)) (pack_entries ts) rest,
  cut-append 2 short_payload (put_u16 (length ts)) (pack_entries ts ++ rest),
  get-put_u16 (length ts) [] n,
  unpack_loop-pack_entries ts [] rest f,
)

pub cut_ok :
    (n : ℕ) (e : UnpackError) (s t xs : Bytes)
    → cut n e s ≡ (ok xs, t)
    → (s ≡ xs ++ t) × (length xs ≡ n)
unfolding cut
cut_ok n e s t xs h = ground (arith, take-append-drop n s, length-take n s)

pub two_bytes :
    (h : Bytes) → length h ≡ 2 → All IsByte h → (put_u16 (get_u16 h) ≡ h) × IsU16 (get_u16 h)
two_bytes [] e b = absurd (omega arith)
two_bytes (_ ∷ []) e b = absurd (omega arith)
two_bytes (x ∷ y ∷ []) e b = ground arith
two_bytes (_ ∷ _ ∷ _ ∷ _) e b = absurd (omega arith)

pub four_bytes :
    (h : Bytes)
    → length h ≡ 4
    → All IsByte h
    → (put_u16 (get_u16 h) ++ put_u16 (get_u16 (drop 2 h)) ≡ h)
      × IsU16 (get_u16 h)
      × IsU16 (get_u16 (drop 2 h))
four_bytes [] e b = absurd (omega arith)
four_bytes (_ ∷ []) e b = absurd (omega arith)
four_bytes (_ ∷ _ ∷ []) e b = absurd (omega arith)
four_bytes (_ ∷ _ ∷ _ ∷ []) e b = absurd (omega arith)
four_bytes (w ∷ x ∷ y ∷ z ∷ []) e b = ground arith
four_bytes (_ ∷ _ ∷ _ ∷ _ ∷ _ ∷ _) e b = absurd (omega arith)
