-- ===== src/Manager/Runners/Opening.antt =====
-- manager/manager.go: what tunnels listen with, and how their goroutines end.
use tunnelmanager.Prelude.{
  ◌≡◌, ◌≢◌, ◌⊎◌, Bool, Bytes, Option, Result, [], arith, codes, err, false, inl, inr, none, ok,
  refl, some, subst, sym, text_eq, true, ℕ,
}
use tunnelmanager.Manager.Config.{TunnelConfig}
use tunnelmanager.Manager.Runners.{
  Listening, tls_proxy, remote_server, listen, open_local, open_server, RunError, chain_nil,
  serve_failed, Ending, asked, served, open_chain, open_for, serve, run_tunnel,
}
use tunnelmanager.Relay.Identity.{IdentityError}
use tunnelmanager.Relay.Identity.Cache.{TlsIdentity}
use tunnelmanager.Manager.Tunnels.{
  Runner, run_local, run_chain, run_remote_server, TunnelState, set_state, choose_runner,
}

module _ {K : Type 0} (opens : Listening K → Bool) where
  listen_ok : (l l' : Listening K) → listen opens l ≡ ok l' → (l' ≡ l) × (opens l ≡ true)
  listen_ok l l' h = ground arith

  -- A tunnel with TLS listens with the identity that SetupTLS returned, or not at all.
  pub data Secured (tc : TunnelConfig) (tls : Result IdentityError (TlsIdentity K))
      : Listening K → Type 0 where
    secured_proxy :
        (id : TlsIdentity K) → tls ≡ ok id → Secured tc tls (tls_proxy tc.local tc.remote id)
    secured_server :
        (id : TlsIdentity K)
        → tls ≡ ok id
        → Secured tc tls (remote_server tc.local tc.token (some id))

  open_local-Secured :
      (tc : TunnelConfig) (tls : Result IdentityError (TlsIdentity K)) (l : Listening K)
      → tc.tls ≡ true
      → open_local opens tc tls ≡ ok l
      → Secured tc tls l
  unfolding open_local
  open_local-Secured tc (err e) l on h = absurd (ground arith)
  open_local-Secured tc (ok id) l on h =
      let e : l ≡ tls_proxy tc.local tc.remote id = ground arith in
      subst (Secured tc (ok id)) (sym e) (secured_proxy id refl)

  open_server-Secured :
      (tc : TunnelConfig) (tls : Result IdentityError (TlsIdentity K)) (l : Listening K)
      → tc.tls ≡ true
      → open_server opens tc tls ≡ ok l
      → Secured tc tls l
  unfolding open_server
  open_server-Secured tc (err e) l on h = absurd (ground arith)
  open_server-Secured tc (ok id) l on h =
      let e : l ≡ remote_server tc.local tc.token (some id) = ground arith in
      subst (Secured tc (ok id)) (sym e) (secured_server id refl)

  -- A tunnel with TLS for which startOne chooses runLocal or runRemoteServer listens, if at all,
  -- with the identity that SetupTLS returned and never without TLS.
  pub open_for-Secured :
      (r : Runner) (tc : TunnelConfig) (tls : Result IdentityError (TlsIdentity K))
      (l : Listening K)
      → choose_runner tc ≡ some r
      → tc.tls ≡ true
      → (r ≡ run_local) ⊎ (r ≡ run_remote_server)
      → open_for opens r tc tls ≡ some (ok l)
      → Secured tc tls l
  unfolding open_for
  open_for-Secured r tc tls l chosen on (inl e) h =
      open_local-Secured tc tls l on (let k = rw e at h in cc)
  open_for-Secured r tc tls l chosen on (inr e) h =
      open_server-Secured tc tls l on (let k = rw e at h in cc)

  -- startOne chooses runChain only where there is a hop.
  pub chain_has_hops :
      (tc : TunnelConfig) → choose_runner tc ≡ some run_chain → open_chain opens tc ≢ err chain_nil
  unfolding choose_runner open_chain
  chain_has_hops tc chosen h = ground arith

module _ {K : Type 0} where
  -- The error that ends a tunnel, if any.
  abbrev pub final_error : Result (RunError K) (Listening K) → Ending → Option (RunError K)
  final_error (err e) ending = some e
  final_error (ok l) asked = none
  final_error (ok l) (served true) = some serve_failed
  final_error (ok l) (served false) = none

module _ {K : Type 0} (text : RunError K → Bytes) where
  abbrev pub final_status : Option (RunError K) → Bytes
  final_status none = codes "stopped"
  final_status (some e) = codes "error"

  abbrev pub final_text : Option (RunError K) → Bytes
  final_text none = []
  final_text (some e) = text e

  -- However a listening tunnel ends, its state ends as error with the text of the error that
  -- opening or serving returned, which is also its last error, or as stopped without one, since
  -- the time it ended and with its reconnect count unchanged.
  pub run_tunnel-serve :
      (started listening ended : ℕ) (opened : Result (RunError K) (Listening K)) (ending : Ending)
      (ts : TunnelState)
      → let (state, last) = run_tunnel text started ended (serve listening ending opened) ts in
        let e = final_error opened ending in
        (last ≡ e)
        × (state.status ≡ final_status e)
        × (state.last_err ≡ final_text e)
        × (state.since ≡ ended)
        × (state.reconnect_count ≡ ts.reconnect_count)
  unfolding run_tunnel serve set_state text_eq
  run_tunnel-serve started listening ended (err e) ending ts = (refl, refl, refl, refl, refl)
  run_tunnel-serve started listening ended (ok l) asked ts = (refl, refl, refl, refl, refl)
  run_tunnel-serve started listening ended (ok l) (served true) ts = (refl, refl, refl, refl, refl)
  run_tunnel-serve started listening ended (ok l) (served false) ts = (refl, refl, refl, refl, refl)
