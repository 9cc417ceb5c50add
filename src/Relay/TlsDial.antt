-- ===== src/Relay/TlsDial.antt =====
-- relay/tls.go: TLSDial. crypto/tls is a parameter: whether the handshake succeeds, by
-- InsecureSkipVerify, and the fingerprint of the certificate that the server presents, if any.
pub mod Checked
mod Runs
use tunnelmanager.Prelude.{
  ◌==◌, ◌||◌, Action, Bool, Bytes, Option, Result, err, if◌then◌else◌, length, none, not, ok, some,
}
use tunnelmanager.Relay.KnownHosts.{KnownHosts, TlsError, verify_server_fingerprint}
use tunnelmanager.Relay.Auth.Tokens.{handshake}

-- What TLSDial reads of TLSConfig.
pub record DialConfig : Type 0 where
  pub insecure : Bool
  pub trust_on_first_use : Bool
  pub server_fingerprint : Bytes
  pub has_store : Bool

pub data TlsDialError : Type 0 where
  handshake_failed : TlsDialError
  peer_refused : TlsError → TlsDialError

abbrev pub manual_verify : DialConfig → Bool
manual_verify cfg = cfg.trust_on_first_use || not (length cfg.server_fingerprint == 0)

abbrev pub skip_verify : DialConfig → Bool
skip_verify cfg = cfg.insecure || manual_verify cfg

-- The result is the certificate's fingerprint on a connection that may be used.
unfoldable pub after_check :
    Option Bytes
    → Result TlsError (Unit {0}) × KnownHosts
    → Result TlsDialError (Option Bytes) × KnownHosts
after_check peer (err e, kh) = (err (peer_refused e), kh)
after_check peer (ok _, kh) = (ok peer, kh)

unfoldable pub check_peer :
    Bytes → DialConfig → Option Bytes → Action KnownHosts TlsDialError (Option Bytes)
unfolding after_check
check_peer addr cfg peer kh =
    if manual_verify cfg
    then after_check peer
        (verify_server_fingerprint cfg.has_store addr cfg.server_fingerprint peer kh)
    else (ok peer, kh)

unfoldable pub after_handshake :
    Bytes → DialConfig → Option (Option Bytes) → Action KnownHosts TlsDialError (Option Bytes)
unfolding check_peer
after_handshake addr cfg none kh = (err handshake_failed, kh)
after_handshake addr cfg (some peer) kh = check_peer addr cfg peer kh

unfoldable pub tls_dial :
    (Bool → Option (Option Bytes))
    → Bytes
    → DialConfig
    → Action KnownHosts TlsDialError (Option Bytes)
unfolding after_handshake
tls_dial handshakes addr cfg kh = after_handshake addr cfg (handshakes (skip_verify cfg)) kh
