-- ===== src/Relay/Register/Sound.antt =====
-- What unpackTunnels of relay/ctrlconn.go accepts.
use tunnelmanager.Prelude.{
  ◌++◌, ◌>>=◌, ◌∙◌, ◌∷◌, ◌≡◌, All, All-append_left, All-append_right, Bytes, IsByte, IsU16, List,
  [], ap, append-nil, append_assoc, arith, bind_ok, drop, get_u16, length, ok, put_u16, refl, subst,
  suc, sym, zero, ℕ,
}
use tunnelmanager.Relay.Register.{
  RemoteTunnel, short_entry, short_bind, short_target_length, short_target, pack_entry, cut,
  unpack_entry, short_payload, pack_entries, pack_tunnels, unpack_loop, unpack_tunnels,
}
use tunnelmanager.Relay.Register.RoundTrip.{Fits, entry_bytes, cut_ok, two_bytes, four_bytes}

unpack_entry_ok :
    (s u : Bytes) (t : RemoteTunnel)
    → All IsByte s
    → unpack_entry s ≡ (ok t, u)
    → (s ≡ pack_entry t ++ u) × Fits t × All IsByte u
unfolding unpack_entry
unpack_entry_ok s u t b h =
    let (head, s1, e1, h1) = bind_ok (cut 4 short_entry) _ s h in
    let (bind, s2, e2, h2) = bind_ok (cut (get_u16 (drop 2 head)) short_bind) _ s1 h1 in
    let (len, s3, e3, h3) = bind_ok (cut 2 short_target_length) _ s2 h2 in
    let (target, s4, e4, h4) = bind_ok (cut (get_u16 len) short_target) _ s3 h3 in
    let c1 = cut_ok 4 short_entry s s1 head e1 in
    let c2 = cut_ok (get_u16 (drop 2 head)) short_bind s1 s2 bind e2 in
    let c3 = cut_ok 2 short_target_length s2 s3 len e3 in
    let c4 = cut_ok (get_u16 len) short_target s3 s4 target e4 in
    let b' = subst (All IsByte) c1.0 b in
    let b1 = subst (All IsByte) c2.0 (All-append_right IsByte head s1 b') in
    let b2 = subst (All IsByte) c3.0 (All-append_right IsByte bind s2 b1) in
    let b3 = subst (All IsByte) c4.0 (All-append_right IsByte len s3 b2) in
    let head_fits = four_bytes head c1.1 (All-append_left IsByte head s1 b') in
    let len_fits = two_bytes len c3.1 (All-append_left IsByte len s3 b2) in
    let b4 = All-append_right IsByte target s4 b3 in
    let split = entry_bytes t u in
    (
      ground arith,
      record { port_fits = ground arith; bind_fits = ground arith; target_fits = ground arith },
      ground arith,
    )

unpack_loop_ok :
    (n : ℕ) (acc ts : List RemoteTunnel) (s u : Bytes)
    → All IsByte s
    → unpack_loop n acc s ≡ (ok ts, u)
    → (new : List RemoteTunnel) × (ts ≡ acc ++ new)
      × (length new ≡ n)
      × (s ≡ pack_entries new ++ u)
      × All Fits new
unfolding unpack_loop pack_entries
unpack_loop_ok zero acc ts s u b h = ([], simp append-nil (ground arith), refl, ground arith, tt)
unpack_loop_ok (suc n) acc ts s u b h =
    let (t, s', e, h') = bind_ok unpack_entry (λ t. unpack_loop n (acc ++ (t ∷ []))) s h in
    let (split, fits, b') = unpack_entry_ok s s' t b e in
    let (new, all, count, rest, fit) = unpack_loop_ok n (acc ++ (t ∷ [])) ts s' u b' h' in
    (
      t ∷ new,
      all ∙ append_assoc acc (t ∷ []) new,
      ap suc count,
      split
          ∙ ap (◌++◌ (pack_entry t)) rest
          ∙ sym (append_assoc (pack_entry t) (pack_entries new) u),
      (fits, fit),
    )

packed_again :
    (s head s1 rest : Bytes) (new ts : List RemoteTunnel)
    → ts ≡ new
    → length new ≡ get_u16 head
    → put_u16 (get_u16 head) ≡ head
    → s ≡ head ++ s1
    → s1 ≡ pack_entries new ++ rest
    → s ≡ pack_tunnels ts ++ rest
unfolding pack_tunnels
packed_again s head s1 rest new ts all n count split behind =
    ground (arith, ap (λ (h : Bytes). h ++ (pack_entries new ++ rest)) count, ap length all)

-- A payload of bytes that unpackTunnels accepts is the packed form of its result, perhaps with
-- bytes behind it, and every tunnel of the result, and their count, fits the wire format.
pub unpack_tunnels_sound :
    (s : Bytes) (ts : List RemoteTunnel)
    → All IsByte s
    → unpack_tunnels s ≡ ok ts
    → (rest : Bytes) × (s ≡ pack_tunnels ts ++ rest) × All Fits ts × IsU16 (length ts)
unfolding unpack_tunnels pack_tunnels
unpack_tunnels_sound s ts b h =
    let m = cut 2 short_payload >>= λ (count : Bytes). unpack_loop (get_u16 count) [] in
    let (head, s1, e1, h1) =
      bind_ok (cut 2 short_payload) (λ count. unpack_loop (get_u16 count) []) s {b = ts}
        {s' = (m s).1} (ground arith) in
    let (split, len) = cut_ok 2 short_payload s s1 head e1 in
    let b' = subst (All IsByte) split b in
    let (count, small) = two_bytes head len (All-append_left IsByte head s1 b') in
    let (new, all, n, rest, fit) =
      unpack_loop_ok (get_u16 head) [] ts s1 (m s).1 (All-append_right IsByte head s1 b') h1 in
    (
      (m s).1,
      packed_again s head s1 (m s).1 new ts all n count split rest,
      rw all fit,
      rw (all, n) small,
    )
