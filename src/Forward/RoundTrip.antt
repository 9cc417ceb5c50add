-- ===== src/Forward/RoundTrip.antt =====
-- Specifications of main.go, written and parsed back.
use tunnelmanager.Prelude.{
  ◌++◌, ◌<◌, ◌∷◌, ◌≡◌, Bool, Bytes, IsU16, append_assoc, arith, cut_last-append, cut_last-none,
  decimal, decimal-IsDigit, err, false, has_byte, has_byte-append, has_byte_digits, if◌then◌else◌,
  length, length-append, length-decimal, ok, parse_u16-decimal, some, ℕ,
}
use tunnelmanager.Forward.{parse_port, parse_forward_spec}
use tunnelmanager.Manager.RemoteSpec.{has_bracket, split_spec, split_front, bind_unsupported}

-- `port:host:hostport`, and with a bind address in front.
abbrev pub spec_text : ℕ → Bytes → ℕ → Bytes
spec_text port host host_port = decimal port ++ (58 ∷ (host ++ (58 ∷ decimal host_port)))

abbrev pub bound_spec_text : Bytes → ℕ → Bytes → ℕ → Bytes
bound_spec_text bind port host host_port = bind ++ (58 ∷ spec_text port host host_port)

-- A host name: not empty, no colon and no bracket.
pub record IsHost (host : Bytes) : Type 0 where
  pub some_host : 0 < length host
  pub no_colon : has_byte 58 host ≡ false
  pub no_bracket : has_bracket host ≡ false

not_in_decimal : (b n : ℕ) → 57 < b → has_byte b (decimal n) ≡ false
not_in_decimal b n h = has_byte_digits b (decimal n) (decimal-IsDigit n) h

split_spec-parts :
    (front host : Bytes) (n : ℕ)
    → IsHost host
    → split_spec (front ++ (58 ∷ (host ++ (58 ∷ decimal n)))) ≡ some (front, host, decimal n)
unfolding split_spec
split_spec-parts front host n v = ground (
  arith,
  append_assoc front (58 ∷ host) (58 ∷ decimal n),
  cut_last-append 58 (front ++ (58 ∷ host)) (decimal n) (not_in_decimal 58 n (omega arith)),
  cut_last-append 58 front host v.no_colon,
)

-- The bytes of a specification with no bracket in its parts.
no_bracket_in :
    (front host : Bytes) (n : ℕ)
    → has_bracket front ≡ false
    → IsHost host
    → has_bracket (front ++ (58 ∷ (host ++ (58 ∷ decimal n)))) ≡ false
unfolding has_byte
no_bracket_in front host n f v = ground (
  arith,
  has_byte-append 91 front (58 ∷ (host ++ (58 ∷ decimal n))),
  has_byte-append 93 front (58 ∷ (host ++ (58 ∷ decimal n))),
  has_byte-append 91 host (58 ∷ decimal n),
  has_byte-append 93 host (58 ∷ decimal n),
  not_in_decimal 91 n (omega arith),
  not_in_decimal 93 n (omega arith),
  v.no_bracket,
)

-- port:host:hostport with 16-bit ports in decimal and a host without colon and brackets is parsed
-- back, with the default bind address.
pub parse_forward_spec-spec_text :
    (port host_port : ℕ) (host default_bind : Bytes) (allow : Bool)
    → IsU16 port
    → IsU16 host_port
    → IsHost host
    → parse_forward_spec (spec_text port host host_port) default_bind allow
      ≡ ok (record { bind = default_bind; port = port; host = host; host_port = host_port })
unfolding parse_forward_spec split_front parse_port
parse_forward_spec-spec_text port host_port host default_bind allow hp hh v = ground (
  arith,
  split_spec-parts (decimal port) host host_port v,
  no_bracket_in (decimal port) host host_port,
  not_in_decimal 91 port,
  not_in_decimal 93 port,
  cut_last-none 58 (decimal port) (not_in_decimal 58 port (omega arith)),
  length-append (decimal port) (58 ∷ (host ++ (58 ∷ decimal host_port))),
  length-decimal port,
  length-decimal host_port,
  parse_u16-decimal port hp,
  parse_u16-decimal host_port hh,
  v.some_host,
)

-- bind:port:host:hostport, with a bind address that is not empty and has no bracket, is parsed
-- back where bind addresses are allowed and refused for its bind address elsewhere.
pub parse_forward_spec-bound_spec_text :
    (port host_port : ℕ) (bind host default_bind : Bytes) (allow : Bool)
    → IsU16 port
    → IsU16 host_port
    → IsHost host
    → 0 < length bind
    → has_bracket bind ≡ false
    → parse_forward_spec (bound_spec_text bind port host host_port) default_bind allow ≡ (
        if allow
        then ok (record { bind = bind; port = port; host = host; host_port = host_port })
        else err bind_unsupported)
unfolding parse_forward_spec split_front parse_port has_byte
parse_forward_spec-bound_spec_text port host_port bind host default_bind allow hp hh v some_bind
      clean =
    ground (
      arith,
      append_assoc bind (58 ∷ decimal port) (58 ∷ (host ++ (58 ∷ decimal host_port))),
      split_spec-parts (bind ++ (58 ∷ decimal port)) host host_port v,
      no_bracket_in (bind ++ (58 ∷ decimal port)) host host_port,
      has_byte-append 91 bind (58 ∷ decimal port),
      has_byte-append 93 bind (58 ∷ decimal port),
      not_in_decimal 91 port,
      not_in_decimal 93 port,
      cut_last-append 58 bind (decimal port) (not_in_decimal 58 port (omega arith)),
      length-append bind (58 ∷ spec_text port host host_port),
      length-decimal port,
      length-decimal host_port,
      parse_u16-decimal port hp,
      parse_u16-decimal host_port hh,
      v.some_host,
    )
