-- ===== src/Forward/PlainTls.antt =====
-- main.go: what `tunnel add` does with --tls, down to what the manager listens with.
use tunnelmanager.Prelude.{◌==◌, ◌≡◌, Bool, Result, arith, false, length, ok, some, true}
use tunnelmanager.Forward.{
  AddParams, zero_config, local_tunnel, local_config, dynamic_tunnel, build_tunnel_config,
}
use tunnelmanager.Manager.Config.{TunnelConfig}
use tunnelmanager.Manager.Runners.{Listening, tls_proxy, remote_server, listen, open_local}
use tunnelmanager.Relay.Identity.{IdentityError}
use tunnelmanager.Relay.Identity.Cache.{TlsIdentity}

local_plain : (p : AddParams) (tc : TunnelConfig) → local_config p ≡ ok tc → tc.tls ≡ false
unfolding local_config local_tunnel zero_config
local_plain p tc h = ground arith

-- The flag is not looked at for a local tunnel.
add_drops_tls :
    (p : AddParams) (tc : TunnelConfig)
    → (length p.local == 0) ≡ false
    → build_tunnel_config p ≡ ok tc
    → tc.tls ≡ false
unfolding build_tunnel_config dynamic_tunnel zero_config
add_drops_tls p tc given h = ground (arith, local_plain p tc)

module _ {K : Type 0} where
  abbrev pub is_plain : Listening K → Bool
  is_plain (tls_proxy listen target id) = false
  is_plain (remote_server listen token (some id)) = false
  is_plain _ = true

  plain_local :
      (opens : Listening K → Bool) (tc : TunnelConfig) (tls : Result IdentityError (TlsIdentity K))
      (l : Listening K)
      → tc.tls ≡ false
      → open_local opens tc tls ≡ ok l
      → is_plain l ≡ true
  unfolding open_local
  plain_local opens tc tls l off h = ground arith

  -- A tunnel that `tunnel add` makes of -L, with --tls or without, listens without TLS, if at all.
  pub added_local_plain :
      (opens : Listening K → Bool) (p : AddParams) (tc : TunnelConfig)
      (tls : Result IdentityError (TlsIdentity K)) (l : Listening K)
      → (length p.local == 0) ≡ false
      → build_tunnel_config p ≡ ok tc
      → open_local opens tc tls ≡ ok l
      → is_plain l ≡ true
  added_local_plain opens p tc tls l given built h =
      plain_local opens tc tls l (add_drops_tls p tc given built) h
