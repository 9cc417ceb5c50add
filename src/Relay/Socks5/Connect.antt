-- ===== src/Relay/Socks5/Connect.antt =====
-- What a client of relay/socks5.go gets that speaks the protocol.
use tunnelmanager.Prelude.{
  ◌&&◌, ◌++◌, ◌-◌, ◌<◌, ◌∙◌, ◌∷◌, ◌≡◌, ◌≢◌, ◌≤◌, Bool, Bytes, [], arith, decimal, err, get_u16,
  if◌then◌else◌, length, ok, refl, sym, text_eq, true, ℕ,
}
use tunnelmanager.Relay.Conn.{write, Conn, read_full-append}
use tunnelmanager.Relay.Socks5.{
  socks_auth_password, authentication_failed, need, need_byte, ignoring, offers, choose_method,
  greeting, password_field, password_auth, join_host_port, read_addr, read_request, requires_auth,
  socks_handshake,
}
use tunnelmanager.Manager.Control.Requests.{methods}

pub need-append :
    (n : ℕ) (c : Conn) (xs rest : Bytes)
    → n ≡ length xs
    → c.input ≡ xs ++ rest
    → need n c ≡ (ok xs, record c { input = rest })
need-append n c xs rest e h = ground (arith, read_full-append c xs rest n e h)

need_byte-cons :
    (c : Conn) (b : ℕ) (rest : Bytes)
    → c.input ≡ b ∷ rest
    → need_byte c ≡ (ok b, record c { input = rest })
need_byte-cons c b rest h = ground (arith, read_full-append c (b ∷ []) rest 1)

-- A name or a password that RFC 1929 can carry.
abbrev pub IsField : Bytes → Type 0
IsField s = (0 < length s) × (length s ≤ 255)

password_field-append :
    (c : Conn) (xs rest : Bytes)
    → IsField xs
    → c.input ≡ length xs ∷ (xs ++ rest)
    → password_field c ≡ (ok xs, record c { input = rest })
unfolding password_field
password_field-append c xs rest (low, high) h = ground (
  arith,
  need_byte-cons c (length xs) (xs ++ rest) h,
  need-append (length xs) (record c { input = xs ++ rest }) xs rest refl refl,
)

abbrev pub credentials : Bytes → Bytes → Bytes → Bytes
credentials user pass rest = 1 ∷ length user ∷ (user ++ (length pass ∷ (pass ++ rest)))

-- Any name and password in the right form are answered: 0 when they are the right ones, otherwise
-- 1 and a failure.
password_auth_answer :
    (user pass u p rest : Bytes) (c : Conn)
    → IsField u
    → IsField p
    → 0 < c.writes
    → c.input ≡ credentials u p rest
    → password_auth user pass c ≡ (
      (if text_eq u user && text_eq p pass then ok tt else err authentication_failed),
      record c {
        input = rest;
        output = c.output ++ (1 ∷ (if text_eq u user && text_eq p pass then 0 else 1) ∷ []);
        writes = c.writes - 1;
      },
    )
unfolding password_auth ignoring write
password_auth_answer user pass u p rest c fu fp w h = ground (
  arith,
  need_byte-cons c 1 (length u ∷ (u ++ (length p ∷ (p ++ rest)))) h,
  password_field-append (record c { input = length u ∷ (u ++ (length p ∷ (p ++ rest))) }) u
      (length p ∷ (p ++ rest)) fu refl,
  password_field-append (record c { input = length p ∷ (p ++ rest) }) p rest fp refl,
)

abbrev pub greets : Bytes → Bytes → Bytes
greets methods rest = 5 ∷ length methods ∷ (methods ++ rest)

greeting_answer :
    (require : Bool) (methods rest : Bytes) (c : Conn)
    → 0 < length methods
    → 0 < c.writes
    → c.input ≡ greets methods rest
    → choose_method require methods ≢ 255
    → greeting require c ≡ (
      ok (choose_method require methods),
      record c {
        input = rest;
        output = c.output ++ (5 ∷ choose_method require methods ∷ []);
        writes = c.writes - 1;
      },
    )
unfolding greeting write
greeting_answer require methods rest c n w h k = ground (
  arith,
  need-append 2 c (5 ∷ length methods ∷ []) (methods ++ rest) refl h,
  need-append (length methods) (record c { input = methods ++ rest }) methods rest refl refl,
)

-- CONNECT to a domain name and a port of two bytes.
abbrev pub connects : Bytes → Bytes → Bytes → Bytes
connects host port rest = 5 ∷ 1 ∷ 0 ∷ 3 ∷ length host ∷ (host ++ (port ++ rest))

read_request_domain :
    (ip_string : Bytes → Bytes) (host port rest : Bytes) (c : Conn)
    → length port ≡ 2
    → c.input ≡ connects host port rest
    → read_request ip_string c ≡ (
      ok (record {
        raw = (3 ∷ length host ∷ host) ++ port;
        addr = join_host_port host (decimal (get_u16 port));
      }),
      record c { input = rest },
    )
unfolding read_request read_addr
read_request_domain ip_string host port rest c two h = ground (
  arith,
  need-append 4 c (5 ∷ 1 ∷ 0 ∷ 3 ∷ []) (length host ∷ (host ++ (port ++ rest))) refl h,
  need_byte-cons (record c { input = length host ∷ (host ++ (port ++ rest)) }) (length host)
      (host ++ (port ++ rest)) refl,
  need-append (length host) (record c { input = host ++ (port ++ rest) }) host (port ++ rest) refl
      refl,
  need-append 2 (record c { input = port ++ rest }) port rest (sym two) refl,
)

offers_some : (methods : Bytes) → offers socks_auth_password methods ≡ true → 0 < length methods
unfolding offers
offers_some [] h = cc
offers_some (m ∷ methods) h = omega arith

-- When a user name or a password is set, a client that offers the password method and sends a name
-- and a password of 1 to 255 bytes and a CONNECT to a domain name gets the target it asked for if
-- both are the configured ones, and is refused otherwise, on a connection that takes two more
-- writes.
pub socks_connect :
    (ip_string : Bytes → Bytes) (user pass u p methods host port rest : Bytes) (c : Conn)
    → requires_auth user pass ≡ true
    → offers socks_auth_password methods ≡ true
    → IsField u
    → IsField p
    → length port ≡ 2
    → 2 ≤ c.writes
    → c.input ≡ greets methods (credentials u p (connects host port rest))
    → (socks_handshake ip_string user pass c).0 ≡ (
        if text_eq u user && text_eq p pass
        then ok (record {
          raw = (3 ∷ length host ∷ host) ++ port;
          addr = join_host_port host (decimal (get_u16 port));
        })
        else err authentication_failed)
unfolding socks_handshake choose_method
socks_connect ip_string user pass u p methods host port rest c req off fu fp two w h =
    let k : choose_method (requires_auth user pass) methods ≡ 2 = ground arith in
    let c1 = record c {
      input = credentials u p (connects host port rest);
      output = c.output ++ (5 ∷ 2 ∷ []);
      writes = c.writes - 1;
    } in
    let greeted : greeting (requires_auth user pass) c ≡ (ok 2, c1) =
      greeting_answer (requires_auth user pass) methods (credentials u p (connects host port rest))
        c (offers_some methods off) (omega arith) h (rw k (λ e. omega arith))
      ∙ rw k refl in
    let good = text_eq u user && text_eq p pass in
    let c2 = record c1 {
      input = connects host port rest;
      output = c1.output ++ (1 ∷ (if good then 0 else 1) ∷ []);
      writes = c1.writes - 1;
    } in
    rw greeted (
      ground (
        arith,
        password_auth_answer user pass u p (connects host port rest) c1 fu fp (omega arith) refl,
        read_request_domain ip_string host port rest c2 two refl,
      ))
