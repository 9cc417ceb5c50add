-- ===== src/Relay/Socks5.antt =====
-- relay/socks5.go: the server's side of a SOCKS5 handshake. The text of an IP address, net.IP's
-- String, is a parameter.
pub mod Access
pub mod Connect
mod Runs
use tunnelmanager.Prelude.{
  ◌++◌, ◌==◌, ◌>>=◌, ◌>>◌, ◌||◌, ◌∷◌, Action, Bool, Bytes, [], decimal, false, get_or, get_u16,
  if◌then◌else◌, join_host_port, ltb, not, ok, pure, raise, text_eq, wrap, ℕ,
}
use tunnelmanager.Relay.Conn.{write, ReadError, WriteError, Conn, read_full}
use tunnelmanager.Manager.Control.Requests.{methods}

abbrev pub socks_ver5 : ℕ
socks_ver5 = 5

abbrev pub socks_cmd_connect : ℕ
socks_cmd_connect = 1

abbrev pub socks_atyp_ipv4 : ℕ
socks_atyp_ipv4 = 1

abbrev pub socks_atyp_domain : ℕ
socks_atyp_domain = 3

abbrev pub socks_atyp_ipv6 : ℕ
socks_atyp_ipv6 = 4

abbrev pub socks_auth_none : ℕ
socks_auth_none = 0

abbrev pub socks_auth_password : ℕ
socks_auth_password = 2

abbrev pub socks_auth_no_accept : ℕ
socks_auth_no_accept = 0xff

-- `raw` is what a reply echoes.
pub record SocksTarget : Type 0 where
  pub raw : Bytes
  pub addr : Bytes

pub data SocksError : Type 0 where
  socks_read : ReadError → SocksError
  socks_write : WriteError → SocksError
  unsupported_version unsupported_command unknown_address_type : ℕ → SocksError
  no_auth_methods no_acceptable_method : SocksError
  invalid_length : ℕ → SocksError
  authentication_failed : SocksError

-- io.ReadFull of `n` bytes, or of one.
abbrev pub need : ℕ → Action Conn SocksError Bytes
need n = wrap socks_read (read_full n)

abbrev pub need_byte : Action Conn SocksError ℕ
need_byte = need 1 >>= λ b. pure (get_or b 0 0)

-- A write whose error the caller ignores.
pub ignoring : Bytes → Action Conn SocksError (Unit {0})
ignoring b c = (ok tt, (write b c).1)

unfoldable pub offers : ℕ → Bytes → Bool
offers m [] = false
offers m (x ∷ xs) = x == m || offers m xs

-- Without authentication the method is 0, offered or not.
unfoldable pub choose_method : Bool → Bytes → ℕ
unfolding offers
choose_method require methods =
    if require
    then (if offers socks_auth_password methods then socks_auth_password else socks_auth_no_accept)
    else socks_auth_none

unfoldable pub greeting : Bool → Action Conn SocksError ℕ
unfolding choose_method
greeting require = do
  header ← need 2
  if not (get_or header 0 0 == socks_ver5)
      then raise (unsupported_version (get_or header 0 0))
      else (if ltb (get_or header 1 0) 1 then raise no_auth_methods else (do
        methods ← need (get_or header 1 0)
        let chosen = choose_method require methods
        wrap socks_write (write (socks_ver5 ∷ chosen ∷ []))
        if chosen == socks_auth_no_accept then raise no_acceptable_method else pure chosen))

-- socksPasswordAuth: a length of 0 is refused, with a reply; a length above 255 cannot be sent.
pub password_field : Action Conn SocksError Bytes
unfolding ignoring
password_field = do
  n ← need_byte
  if ltb n 1 || ltb 255 n then (ignoring (1 ∷ 2 ∷ []) >> raise (invalid_length n)) else need n

pub password_auth : Bytes → Bytes → Action Conn SocksError (Unit {0})
unfolding ignoring password_field
password_auth user pass = do
  version ← need_byte
  if not (version == 1) then (ignoring (1 ∷ 1 ∷ []) >> raise (unsupported_version version)) else (do
    given_user ← password_field
    given_pass ← password_field
    if not (text_eq given_user user) || not (text_eq given_pass pass)
        then (ignoring (1 ∷ 1 ∷ []) >> raise authentication_failed)
        else wrap socks_write (write (1 ∷ 0 ∷ [])))

-- The address that follows the type, as the bytes of the reply and as text.
unfoldable pub read_addr : (Bytes → Bytes) → ℕ → Action Conn SocksError (Bytes × Bytes)
read_addr ip_string atyp =
    if atyp == socks_atyp_ipv4
    then (need 4 >>= λ addr. pure (atyp ∷ addr, ip_string addr))
    else if atyp == socks_atyp_ipv6
    then (need 16 >>= λ addr. pure (atyp ∷ addr, ip_string addr))
    else if atyp == socks_atyp_domain
    then (do n ← need_byte; domain ← need n; pure (atyp ∷ n ∷ domain, domain))
    else raise (unknown_address_type atyp)

unfoldable pub read_request : (Bytes → Bytes) → Action Conn SocksError SocksTarget
unfolding read_addr
read_request ip_string = do
  req ← need 4
  if not (get_or req 0 0 == socks_ver5)
      then raise (unsupported_version (get_or req 0 0))
      else (if not (get_or req 1 0 == socks_cmd_connect)
          then raise (unsupported_command (get_or req 1 0))
          else (do
            found ← read_addr ip_string (get_or req 3 0)
            port ← need 2
            pure (record {
              raw = found.0 ++ port;
              addr = join_host_port found.1 (decimal (get_u16 port));
            })))

-- `user != "" || pass != ""`
abbrev pub requires_auth : Bytes → Bytes → Bool
requires_auth user pass = not (text_eq user []) || not (text_eq pass [])

unfoldable pub socks_handshake :
    (Bytes → Bytes) → Bytes → Bytes → Action Conn SocksError SocksTarget
unfolding greeting password_auth read_request
socks_handshake ip_string user pass = do
  chosen ← greeting (requires_auth user pass)
  if chosen == socks_auth_password then password_auth user pass else pure tt
  read_request ip_string
