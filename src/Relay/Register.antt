-- ===== src/Relay/Register.antt =====
-- relay/ctrlconn.go: the list of tunnels that a client registers, packed and unpacked.
pub mod Sound
pub mod RoundTrip
mod Runs
use tunnelmanager.Prelude.{
  ◌++◌, ◌>>=◌, ◌>>◌, ◌∷◌, Action, Bytes, List, Result, [], drop, err, get_u16, if◌then◌else◌,
  length, ltb, ok, pure, put_u16, suc, take, zero, ℕ,
}

pub record RemoteTunnel : Type 0 where
  pub remote_port : ℕ
  pub bind_addr : Bytes
  pub target_addr : Bytes

pub data UnpackError : Type 0 where
  short_payload short_entry short_bind short_target_length short_target : UnpackError

-- uint16(len(s)) before the bytes of `s`.
abbrev pub put_text : Bytes → Bytes
put_text s = put_u16 (length s) ++ s

unfoldable pub pack_entry : RemoteTunnel → Bytes
pack_entry t = put_u16 t.remote_port ++ (put_text t.bind_addr ++ put_text t.target_addr)

unfoldable pub pack_entries : List RemoteTunnel → Bytes
unfolding pack_entry
pack_entries [] = []
pack_entries (t ∷ ts) = pack_entry t ++ pack_entries ts

unfoldable pub pack_tunnels : List RemoteTunnel → Bytes
unfolding pack_entries
pack_tunnels ts = put_u16 (length ts) ++ pack_entries ts

-- `if len(data) < n { return err }`, then `data[:n]` with `data = data[n:]`.
pub cut : ℕ → UnpackError → Action Bytes UnpackError Bytes
cut n e s = if ltb (length s) n then (err e, s) else (ok (take n s), drop n s)

pub unpack_entry : Action Bytes UnpackError RemoteTunnel
unfolding cut
unpack_entry = do
  head ← cut 4 short_entry
  bind ← cut (get_u16 (drop 2 head)) short_bind
  target_len ← cut 2 short_target_length
  target ← cut (get_u16 target_len) short_target
  pure (record { remote_port = get_u16 head; bind_addr = bind; target_addr = target })

-- `for range count`, with the tunnels read so far.
pub unpack_loop : ℕ → List RemoteTunnel → Action Bytes UnpackError (List RemoteTunnel)
unfolding unpack_entry
unpack_loop zero tunnels s = (ok tunnels, s)
unpack_loop (suc count) tunnels s =
    (unpack_entry >>= λ t. unpack_loop count (tunnels ++ (t ∷ []))) s

unfoldable pub unpack_tunnels : Bytes → Result UnpackError (List RemoteTunnel)
unfolding unpack_loop cut
unpack_tunnels s = ((cut 2 short_payload >>= λ count. unpack_loop (get_u16 count) []) s).0
