-- ===== src/Manager/Runners/Clients.antt =====
-- manager/manager.go: the clients of a remote tunnel and what a tick of their runner reports.
pub mod Reports
pub mod Count
use tunnelmanager.Prelude.{
  ◌+◌, ◌==◌, ◌∷◌, Bool, Bytes, List, Option, Result, [], codes, err, if◌then◌else◌, length, ltb,
  negsuc, none, ok, pos, some, suc, zero, ℕ, ℤ,
}
use tunnelmanager.Relay.RemoteClient.{ClientError, RemoteClient, new_remote_client, is_connected}
use tunnelmanager.Relay.Identity.Cache.{TlsIdentity}
use tunnelmanager.Manager.Tunnels.{TunnelState, set_state, set_reconnect_count}
use tunnelmanager.Manager.Config.{TunnelConfig}
use tunnelmanager.Manager.Runners.{RunError, tls_failed, bad_remote}
use tunnelmanager.Manager.RemoteSpec.{parse_remote_spec}
use tunnelmanager.Relay.Identity.{IdentityError}
use tunnelmanager.Relay.Register.{RemoteTunnel}
use tunnelmanager.Relay.TlsDial.{DialConfig}
use tunnelmanager.Relay.RemoteClient.Reconnects.{connected}

module _ {K : Type 0} where
  unfoldable pub client_tls :
      TunnelConfig
      → Result IdentityError (TlsIdentity K)
      → Result (RunError K) (Option (TlsIdentity K))
  client_tls tc tls =
      if tc.tls then (elim tls [ err e ↦ err (tls_failed e) | ok id ↦ ok (some id) ]) else ok none

  -- The start of runRemoteClient and of runRemoteClientMulti.
  unfoldable pub prepare :
      TunnelConfig
      → Result IdentityError (TlsIdentity K)
      → Result (RunError K) (Option (TlsIdentity K) × RemoteTunnel)
  unfolding client_tls
  prepare tc tls = elim (client_tls tc tls) [
    | err e ↦ err e
    | ok id ↦ elim (parse_remote_spec tc.remote) [
      | err e ↦ err (bad_remote e)
      | ok (bind, port, target) ↦
          ok (id, record { remote_port = port; bind_addr = bind; target_addr = target })
    ]
  ]

  -- The TLSConfig that both runners hand to the clients.
  unfoldable pub dial_config : TunnelConfig → TlsIdentity K → Bool → DialConfig
  dial_config tc id has_store = record {
    insecure = id.insecure;
    trust_on_first_use = tc.tls_trust_on_first_use;
    server_fingerprint = tc.tls_server_fingerprint;
    has_store = has_store;
  }

-- How many clients runRemoteClientMulti starts.
unfoldable pub clamp : ℤ → ℕ
clamp (negsuc n) = 1
clamp (pos n) = if ltb n 1 then 1 else if ltb 10 n then 10 else n

abbrev replicate {ℓ} : {A : Type ℓ} → ℕ → A → List A
replicate zero x = []
replicate (suc n) x = x ∷ replicate n x

unfoldable pub start_clients : TunnelConfig → RemoteTunnel → List RemoteClient
unfolding clamp
start_clients tc tunnel =
    replicate (clamp tc.connections) (new_remote_client tc.token (tunnel ∷ []))

unfoldable pub count_connected : List RemoteClient → ℕ
count_connected [] = 0
count_connected (rc ∷ rcs) =
    if is_connected rc then suc (count_connected rcs) else count_connected rcs

unfoldable pub total_reconnects : List RemoteClient → ℕ
total_reconnects [] = 0
total_reconnects (rc ∷ rcs) = rc.reconnect_count + total_reconnects rcs

unfoldable pub clients_status : ℕ → ℕ → Bytes
clients_status connected n =
    if connected == n
    then codes "established"
    else if ltb 0 connected
    then codes "degraded"
    else codes "reconnecting"

-- A tick of runRemoteClientMulti.
unfoldable pub multi_tick : ℕ → List RemoteClient → TunnelState → TunnelState
unfolding clients_status count_connected total_reconnects
multi_tick now rcs ts =
    set_reconnect_count (total_reconnects rcs)
      (set_state (clients_status (count_connected rcs) (length rcs)) [] now ts)

pub data SingleTick : Type 0 where
  ticked : TunnelState → Option (Option ClientError) → SingleTick
  tick_panics : SingleTick

-- A tick of runRemoteClient. `mt` is what it found in m.tunnels when it started, with lastErr.
unfoldable pub single_tick :
    ℕ → RemoteClient → Option (Option ClientError) → TunnelState → SingleTick
single_tick now rc mt ts =
    let ts' = set_reconnect_count rc.reconnect_count (
      set_state (if is_connected rc then codes "established" else codes "reconnecting") [] now
        ts) in
    elim rc.last_err [
      | none ↦ ticked ts' mt
      | some e ↦ elim mt [ none ↦ tick_panics | some _ ↦ ticked ts' (some (some e)) ]
    ]
