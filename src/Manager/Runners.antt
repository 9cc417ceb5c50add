-- ===== src/Manager/Runners.antt =====
-- manager/manager.go: what the goroutine of a tunnel runs. `tls` is what SetupTLS returned for the
-- tunnel, `opens` says which listeners can be opened, and `text` is the text of an error.
pub mod Opening
pub mod Clients
pub mod Checking
mod Runs
use tunnelmanager.Prelude.{
  ◌||◌, ◌∷◌, Bool, Bytes, List, Option, Result, [], codes, err, if◌then◌else◌, none, not, ok, some,
  text_eq, ℕ,
}
use tunnelmanager.Relay.Identity.Cache.{TlsIdentity}
use tunnelmanager.Manager.Tunnels.{
  TunnelState, set_state, Runner, run_local, run_chain, run_dynamic, run_remote_server,
}
use tunnelmanager.Manager.Config.{TunnelConfig}
use tunnelmanager.Manager.RemoteSpec.{SpecError}
use tunnelmanager.Relay.Identity.{IdentityError}

-- What a runner listens with: the constructor that it calls, with its arguments.
pub data Listening (K : Type 0) : Type 0 where
  udp_proxy proxy : Bytes → Bytes → Listening K
  tls_proxy : Bytes → Bytes → TlsIdentity K → Listening K
  chain_proxy : Bytes → List Bytes → Listening K
  socks_proxy : Bytes → Bytes → Bytes → Listening K
  remote_server : Bytes → Bytes → Option (TlsIdentity K) → Listening K

pub data RunError (K : Type 0) : Type 0 where
  udp_with_tls chain_nil : RunError K
  tls_failed : IdentityError → RunError K
  open_failed : Listening K → RunError K
  bad_remote : SpecError → RunError K
  serve_failed : RunError K

-- How serving ends: by stop, or by Serve, which returns an error or none.
pub data Ending : Type 0 where
  asked : Ending
  served : Bool → Ending

module _ {K : Type 0} (opens : Listening K → Bool) where
  abbrev pub listen : Listening K → Result (RunError K) (Listening K)
  listen l = if opens l then ok l else err (open_failed l)

  -- The start of runLocal, runChain, runDynamic and runRemoteServer.
  unfoldable pub open_local :
      TunnelConfig → Result IdentityError (TlsIdentity K) → Result (RunError K) (Listening K)
  open_local tc tls =
      if text_eq tc.protocol (codes "udp")
      then (if tc.tls then err udp_with_tls else listen (udp_proxy tc.local tc.remote))
      else if tc.tls
      then (elim tls [
        | err e ↦ err (tls_failed e)
        | ok id ↦ listen (tls_proxy tc.local tc.remote id)
      ])
      else listen (proxy tc.local tc.remote)

  -- NewChainProxy returns neither a proxy nor an error where there is no hop.
  pub open_chain : TunnelConfig → Result (RunError K) (Listening K)
  open_chain tc = elim tc.hops [
    | [] ↦ err chain_nil
    | _ ∷ _ ↦ listen (chain_proxy tc.local tc.hops)
  ]

  pub open_dynamic : TunnelConfig → Result (RunError K) (Listening K)
  open_dynamic tc =
      if not (text_eq tc.socks_user []) || not (text_eq tc.socks_pass [])
      then listen (socks_proxy tc.local tc.socks_user tc.socks_pass)
      else listen (socks_proxy tc.local [] [])

  pub open_server :
      TunnelConfig → Result IdentityError (TlsIdentity K) → Result (RunError K) (Listening K)
  open_server tc tls =
      if tc.tls
      then (elim tls [
        | err e ↦ err (tls_failed e)
        | ok id ↦ listen (remote_server tc.local tc.token (some id))
      ])
      else listen (remote_server tc.local tc.token none)

-- The runners that listen, by the choice of startOne.
unfoldable pub open_for :
    {K : Type 0}
    → (Listening K → Bool)
    → Runner
    → TunnelConfig
    → Result IdentityError (TlsIdentity K)
    → Option (Result (RunError K) (Listening K))
unfolding open_local open_chain open_dynamic open_server
open_for opens run_local tc tls = some (open_local opens tc tls)
open_for opens run_chain tc tls = some (open_chain opens tc)
open_for opens run_dynamic tc tls = some (open_dynamic opens tc)
open_for opens run_remote_server tc tls = some (open_server opens tc tls)
open_for opens _ tc tls = none

-- The rest of those four: the status, Serve, and the wait.
unfoldable pub serve :
    {K : Type 0}
    → ℕ
    → Ending
    → Result (RunError K) (Listening K)
    → TunnelState
    → Result (RunError K) (Unit {0}) × TunnelState
serve now ending (err e) ts = (err e, ts)
serve now asked (ok l) ts = (ok tt, set_state (codes "listening") [] now ts)
serve now (served failed) (ok l) ts =
    (if failed then err serve_failed else ok tt, set_state (codes "listening") [] now ts)

-- The goroutine of startOne around a runner: the state in the end, and mt.lastErr.
unfoldable pub run_tunnel :
    {K : Type 0}
    → (RunError K → Bytes)
    → ℕ
    → ℕ
    → (TunnelState → Result (RunError K) (Unit {0}) × TunnelState)
    → TunnelState
    → TunnelState × Option (RunError K)
run_tunnel text started ended runner ts =
    let (r, ts') = runner (set_state (codes "starting") [] started ts) in
    elim r [
      | err e ↦ (set_state (codes "error") (text e) ended ts', some e)
      | ok _ ↦ (set_state (codes "stopped") [] ended ts', none)
    ]
