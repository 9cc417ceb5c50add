-- ===== src/Relay/TlsDial/Runs.antt =====
-- relay/tls.go: a first connection to a server with trust on first use.
use tunnelmanager.Prelude.{
  ◌≡◌, Bool, Bytes, Option, Result, [], codes, false, ok, refl, some, text_eq, true,
}
use tunnelmanager.Relay.KnownHosts.{
  no_file, KnownHosts, recorded, save_locked, verify, accept, verify_server_fingerprint,
}
use tunnelmanager.Relay.TlsDial.{
  DialConfig, TlsDialError, after_check, check_peer, after_handshake, tls_dial,
}

abbrev trusting : DialConfig
trusting = record {
  insecure = false;
  trust_on_first_use = true;
  server_fingerprint = [];
  has_store = true;
}

abbrev empty_store : KnownHosts
empty_store = record { path = codes "k"; entries = []; file = no_file; creatable = true }

abbrev shows_a : Bool → Option (Option Bytes)
shows_a skip = some (some (codes "SHA256:a"))

abbrev used : Result TlsDialError (Option Bytes) × KnownHosts
used = tls_dial shows_a (codes "h:1") trusting empty_store

used_ok : used.0 ≡ ok (some (codes "SHA256:a"))
unfolding tls_dial after_handshake check_peer after_check verify_server_fingerprint verify accept
    save_locked recorded text_eq
used_ok = refl
