-- ===== src/Manager/Runners/Runs.antt =====
-- Concrete tunnels of manager/manager.go: two remote clients, tunnels with TLS.
use tunnelmanager.Prelude.{
  ◌++◌, ◌∷◌, ◌≡◌, ◌⊎◌, Bool, Bytes, Option, [], codes, false, inl, none, ok, refl, some, text_eq,
  true, ℕ,
}
use tunnelmanager.Manager.Samples.{configured}
use tunnelmanager.Manager.Tunnels.{run_local, fresh_state, choose_runner}
use tunnelmanager.Manager.Config.{TunnelConfig}
use tunnelmanager.Manager.Runners.{tls_proxy, open_local, open_for}
use tunnelmanager.Manager.Runners.Opening.{Secured, open_for-Secured}
use tunnelmanager.Manager.Runners.Clients.{total_reconnects, multi_tick, dial_config}
use tunnelmanager.Manager.Runners.Clients.Reports.{Fits, multi_tick-Fits}
use tunnelmanager.Relay.Conn.{Conn}
use tunnelmanager.Relay.CtrlConn.{new_ctrl_conn}
use tunnelmanager.Relay.RemoteClient.{RemoteClient, new_remote_client}
use tunnelmanager.Relay.Identity.Cache.{TlsIdentity, setup_tls}
use tunnelmanager.Manager.Runners.Checking.{verified_tunnel}
use tunnelmanager.Relay.Identity.{Certificate, public_key_fingerprint, tls_cert_fingerprint}
use tunnelmanager.Relay.KnownHosts.{no_file, KnownHosts, recorded}
use tunnelmanager.Relay.TlsDial.{tls_dial, after_check, check_peer, after_handshake}
use tunnelmanager.Relay.Identity.Samples.{plain, no_files}

abbrev conn : Conn
conn = record { input = []; output = []; writes = 0 }

-- A client that has lost its connection twice, and one that is connected.
abbrev lost : RemoteClient
lost = record (new_remote_client [] []) { reconnect_count = 2 }

abbrev up : RemoteClient
up = record (new_remote_client [] []) { cc = some (new_ctrl_conn conn 0) }

multi_tick-Fits_example :
    Fits (up ∷ lost ∷ []) (multi_tick 5 (up ∷ lost ∷ []) fresh_state).status
    × ((multi_tick 5 (up ∷ lost ∷ []) fresh_state).reconnect_count ≡ 2)
    × ((multi_tick 5 (up ∷ lost ∷ []) fresh_state).last_err ≡ [])
unfolding total_reconnects new_remote_client
multi_tick-Fits_example = multi_tick-Fits 5 (up ∷ lost ∷ []) fresh_state

abbrev secure : TunnelConfig
secure = record (configured (97 ∷ []) true) { tls = true; tls_verify = true; server = codes "h:1" }

abbrev identity : TlsIdentity ℕ
identity = record {
  cert = record { chain = []; private_key = none };
  insecure = false;
  fingerprint = [];
}

open_for-Secured_example :
    Secured (λ l. true) secure (ok identity) (tls_proxy secure.local secure.remote identity)
unfolding choose_runner open_for open_local text_eq
open_for-Secured_example =
    open_for-Secured (λ l. true) run_local secure (ok identity)
      (tls_proxy secure.local secure.remote identity) refl refl (inl refl) refl

abbrev signed : Bool → Option (Option Bytes)
signed skip = some (some (codes "SHA256:a"))

abbrev no_store : KnownHosts
no_store = record { path = []; entries = []; file = no_file; creatable = true }

-- A server that presents files of its own, so that SetupTLS generates nothing.
abbrev own_pair : Option (Certificate ℕ)
own_pair = some (record { chain = (1 ∷ 7 ∷ []) ∷ []; private_key = none })

abbrev own_identity : TlsIdentity ℕ
own_identity = record {
  cert = record { chain = (1 ∷ 7 ∷ []) ∷ []; private_key = none };
  insecure = false;
  fingerprint = codes "SHA256:" ++ (7 ∷ []);
}

abbrev with_files : TunnelConfig
with_files = record secure { tls_cert = codes "c"; tls_key = codes "k" }

verified_tunnel_example :
    (signed false ≡ some (some (codes "SHA256:a")))
    ⊎ (some (codes "SHA256:a") ≡ some with_files.tls_server_fingerprint)
    ⊎ ((fp : Bytes) × (some (codes "SHA256:a") ≡ some fp)
        × (recorded with_files.server no_store.entries ≡ some fp))
unfolding setup_tls tls_dial dial_config tls_cert_fingerprint public_key_fingerprint after_check
    check_peer after_handshake text_eq
verified_tunnel_example =
    verified_tunnel plain 0 0 0 [] own_pair (record { cache = []; homes = no_files }) own_identity
      with_files signed true (some (codes "SHA256:a")) no_store no_store refl refl refl
