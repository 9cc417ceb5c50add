-- ===== src/Relay/Socks5/Access.antt =====
-- Who gets through the handshake of relay/socks5.go.
use tunnelmanager.Prelude.{
  ◌++◌, ◌==◌, ◌>>◌, ◌||◌, ◌∙◌, ◌∷◌, ◌≡◌, ◌≢◌, Action, Bool, Bytes, [], ap, arith, bind_ok, false,
  get_or, guard_ok, if◌then◌else◌, length, ltb, not, ok, pure, raise, refl, sym, text_eq,
  text_eq_iff, true, wrap, wrap_ok, ℕ,
}
use tunnelmanager.Relay.Conn.{write, Conn, read_full, read_full_ok}
use tunnelmanager.Relay.Socks5.{
  socks_ver5, socks_auth_password, socks_auth_no_accept, SocksTarget, SocksError, socks_read,
  socks_write, unsupported_version, no_auth_methods, no_acceptable_method, invalid_length,
  authentication_failed, need, need_byte, ignoring, offers, choose_method, greeting, password_field,
  password_auth, requires_auth, socks_handshake,
}

need_ok :
    (n : ℕ) (c d : Conn) (xs : Bytes)
    → need n c ≡ (ok xs, d)
    → (c.input ≡ xs ++ d.input) × (length xs ≡ n)
need_ok n c d xs h =
    let (split, len, same, left) = read_full_ok c d n xs (wrap_ok socks_read (read_full n) c h) in
    (split, len)

one_byte : (xs : Bytes) → length xs ≡ 1 → xs ≡ get_or xs 0 0 ∷ []
one_byte [] e = absurd (omega arith)
one_byte (x ∷ []) e = refl
one_byte (x ∷ y ∷ xs) e = absurd (omega arith)

two_bytes : (xs : Bytes) → length xs ≡ 2 → xs ≡ get_or xs 0 0 ∷ get_or xs 1 0 ∷ []
two_bytes [] e = absurd (omega arith)
two_bytes (x ∷ []) e = absurd (omega arith)
two_bytes (x ∷ y ∷ []) e = refl
two_bytes (x ∷ y ∷ z ∷ xs) e = absurd (omega arith)

need_byte_ok : (c d : Conn) (b : ℕ) → need_byte c ≡ (ok b, d) → c.input ≡ b ∷ d.input
need_byte_ok c d b h =
    let (xs, c1, e, k) = bind_ok (need 1) (λ xs. pure (get_or xs 0 0)) c h in
    let (split, len) = need_ok 1 c c1 xs e in ground (arith, one_byte xs len)

-- A guard that replies before it fails.
reply_ok :
    {A : Type 0} (b : Bool) (w : Bytes) (e : SocksError) (m : Action Conn SocksError A) (c d : Conn)
    {a : A}
    → (if b then (ignoring w >> raise e) else m) c ≡ (ok a, d)
    → (b ≡ false) × (m c ≡ (ok a, d))
unfolding ignoring
reply_ok true w e m c d h = cc
reply_ok false w e m c d h = (refl, h)

password_field_ok :
    (c d : Conn) (xs : Bytes)
    → password_field c ≡ (ok xs, d)
    → c.input ≡ length xs ∷ (xs ++ d.input)
unfolding password_field
password_field_ok c d xs h =
    let (n, c1, e1, h1) = bind_ok need_byte _ c h in
    let (small, h2) =
      reply_ok (ltb n 1 || ltb 255 n) (1 ∷ 2 ∷ []) (invalid_length n) (need n) c1 d h1 in
    let (split, len) = need_ok n c1 d xs h2 in need_byte_ok c c1 n e1 ∙ rw (split, ← len) refl

written_input :
    (b : Bytes) (c d : Conn) {u : Unit {0}}
    → wrap socks_write (write b) c ≡ (ok u, d)
    → d.input ≡ c.input
unfolding write
written_input b c d h = ground arith

password_auth_ok :
    (user pass : Bytes) (c d : Conn) {u : Unit {0}}
    → password_auth user pass c ≡ (ok u, d)
    → c.input ≡ 1 ∷ length user ∷ (user ++ (length pass ∷ (pass ++ d.input)))
unfolding password_auth
password_auth_ok user pass c d h =
    let (version, c1, e1, h1) = bind_ok need_byte _ c h in
    let (v, h2) =
      reply_ok (not (version == 1)) (1 ∷ 1 ∷ []) (unsupported_version version) _ c1 d h1 in
    let (u, c2, e2, h3) = bind_ok password_field _ c1 h2 in
    let (p, c3, e3, h4) = bind_ok password_field _ c2 h3 in
    let (same, h5) =
      reply_ok (not (text_eq u user) || not (text_eq p pass)) (1 ∷ 1 ∷ []) authentication_failed
        (wrap socks_write (write (1 ∷ 0 ∷ []))) c3 d h4 in
    ground (
      arith,
      need_byte_ok c c1 version e1,
      password_field_ok c1 c2 u e2,
      password_field_ok c2 c3 p e3,
      written_input (1 ∷ 0 ∷ []) c3 d h5,
      text_eq_iff u user,
      text_eq_iff p pass,
    )

greeting_ok :
    (require : Bool) (c d : Conn) (k : ℕ)
    → greeting require c ≡ (ok k, d)
    → (methods : Bytes) × (c.input ≡ 5 ∷ length methods ∷ (methods ++ d.input))
      × (k ≡ choose_method require methods)
      × (k ≢ 255)
unfolding greeting
greeting_ok require c d k h =
    let (header, c1, e1, h1) = bind_ok (need 2) _ c h in
    let (version, h2) =
      guard_ok (not (get_or header 0 0 == socks_ver5)) (unsupported_version (get_or header 0 0)) _
        c1 h1 in
    let (some_method, h3) = guard_ok (ltb (get_or header 1 0) 1) no_auth_methods _ c1 h2 in
    let (methods, c2, e2, h4) = bind_ok (need (get_or header 1 0)) _ c1 h3 in
    let (u, c3, e3, h5) =
      bind_ok (wrap socks_write (write (socks_ver5 ∷ choose_method require methods ∷ []))) _ c2
        h4 in
    let (good, h6) =
      guard_ok (choose_method require methods == socks_auth_no_accept) no_acceptable_method
        (pure (choose_method require methods)) c3 h5 in
    let (split, two) = need_ok 2 c c1 header e1 in
    let (split', len) = need_ok (get_or header 1 0) c1 c2 methods e2 in
    let same = written_input (socks_ver5 ∷ choose_method require methods ∷ []) c2 c3 e3 in
    (methods, ground (arith, two_bytes header two), ground arith, ground arith)

-- When a user name or a password is set, a SOCKS5 handshake that succeeds has read from a client
-- that offered the password method and sent exactly that name and that password.
pub socks_access :
    (ip_string : Bytes → Bytes) (user pass : Bytes) (c d : Conn) (target : SocksTarget)
    → requires_auth user pass ≡ true
    → socks_handshake ip_string user pass c ≡ (ok target, d)
    → (methods rest : Bytes) × (c.input
        ≡ 5
          ∷ length methods
          ∷ (methods ++ (1 ∷ length user ∷ (user ++ (length pass ∷ (pass ++ rest))))))
      × (offers socks_auth_password methods ≡ true)
unfolding socks_handshake choose_method
socks_access ip_string user pass c d target req h =
    let (k, c1, e1, h1) = bind_ok (greeting (requires_auth user pass)) _ c h in
    let (methods, split, chosen, fine) = greeting_ok (requires_auth user pass) c c1 k e1 in
    let offered : offers socks_auth_password methods ≡ true = ground arith in
    let asked : (k == socks_auth_password) ≡ true = ground arith in
    let (u, c2, e2, h2) =
      bind_ok (if k == socks_auth_password then password_auth user pass else pure tt) _ c1 h1 in
    let right =
      password_auth_ok user pass c1 c2
        (ap (λ b. (if b then password_auth user pass else pure tt) c1) (sym asked) ∙ e2) in
    (methods, c2.input, split ∙ rw right refl, offered)
