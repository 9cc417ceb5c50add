-- ===== src/Manager/Runners/Checking.antt =====
-- manager/manager.go with relay/tls.go: which servers the clients of a remote tunnel talk to.
use tunnelmanager.Prelude.{
  ◌≡◌, ◌⊎◌, Bool, Bytes, Option, arith, false, inl, inr, not, ok, some, true, ℕ,
}
use tunnelmanager.Relay.Identity.{Certificate, Crypto}
use tunnelmanager.Relay.KnownHosts.{verify, KnownHosts, recorded}
use tunnelmanager.Relay.Identity.Cache.{Identities, TlsIdentity, setup_tls}
use tunnelmanager.Manager.Config.{TunnelConfig}
use tunnelmanager.Manager.Runners.Clients.{dial_config}
use tunnelmanager.Relay.TlsDial.{tls_dial}
use tunnelmanager.Relay.TlsDial.Checked.{by_chain, by_pin, by_store, unchecked, tls_dial_checked}

-- The identity that SetupTLS makes for `tls_verify` is not insecure.
pub setup_tls-insecure :
    {K P : Type 0} (lib : Crypto K P) (now key_random random : ℕ) (dir : Bytes)
    (pair : Option (Certificate K)) (cert_file key_file : Bytes) (verify : Bool)
    (ids : Identities K) (id : TlsIdentity K)
    → (setup_tls lib now key_random random dir pair cert_file key_file verify ids).0 ≡ ok id
    → id.insecure ≡ not verify
unfolding setup_tls
setup_tls-insecure lib now key_random random dir pair cert_file key_file verify ids id h =
    ground arith

-- When a remote tunnel with tls_verify, whose TLSConfig SetupTLS made, gets a connection from
-- TLSDial, the server passed the verification of its certificate chain, or it showed the
-- configured fingerprint, or the fingerprint that the store of known hosts now records for its
-- address.
pub verified_tunnel :
    {K P : Type 0} (lib : Crypto K P) (now key_random random : ℕ) (dir : Bytes)
    (pair : Option (Certificate K)) (ids : Identities K) (id : TlsIdentity K) (tc : TunnelConfig)
    (handshakes : Bool → Option (Option Bytes)) (has_store : Bool) (peer : Option Bytes)
    (kh kh' : KnownHosts)
    → tc.tls_verify ≡ true
    → (setup_tls lib now key_random random dir pair tc.tls_cert tc.tls_key tc.tls_verify ids).0
      ≡ ok id
    → tls_dial handshakes tc.server (dial_config tc id has_store) kh ≡ (ok peer, kh')
    → (handshakes false ≡ some peer)
      ⊎ (peer ≡ some tc.tls_server_fingerprint)
      ⊎ ((fp : Bytes) × (peer ≡ some fp) × (recorded tc.server kh'.entries ≡ some fp))
unfolding dial_config
verified_tunnel lib now key_random random dir pair ids id tc handshakes has_store peer kh kh' verify
      made h =
    elim (tls_dial_checked handshakes tc.server (dial_config tc id has_store) peer kh kh' h) [
      | by_chain off e ↦ inl e
      | by_pin e ↦ inr (inl e)
      | by_store fp e at ↦ inr (inr (fp, e, at))
      | unchecked on off ↦
          let secure =
            setup_tls-insecure lib now key_random random dir pair tc.tls_cert tc.tls_key
              tc.tls_verify ids id made in
          absurd (ground arith)
    ]
