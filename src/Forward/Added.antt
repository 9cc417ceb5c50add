-- ===== src/Forward/Added.antt =====
-- Tunnels that main.go builds from flags, as manager/manager.go starts them.
use tunnelmanager.Prelude.{
  ◌++◌, ◌<◌, ◌==◌, ◌∷◌, ◌≡◌, Bool, Bytes, Result, [], arith, codes, err, false, if◌then◌else◌,
  length, not, ok, refl, some, subst, text_eq, true,
}
use tunnelmanager.Forward.{
  AddParams, default_name, zero_config, local_config, remote_config, dynamic_tunnel,
  build_tunnel_config, parse_local_spec, AddError, bad_spec, no_mode, no_server, local_tunnel,
  remote_tunnel,
}
use tunnelmanager.Manager.Tunnels.{Runner, run_local, run_dynamic, run_remote_client, choose_runner}
use tunnelmanager.Manager.Config.{TunnelConfig}
use tunnelmanager.Manager.RemoteSpec.{SpecError}

-- The runner that each kind of tunnel needs; a remote tunnel made from flags has one connection.
abbrev pub flag_runner : AddParams → Runner
flag_runner p =
    if not (length p.local == 0)
    then run_local
    else if not (length p.remote == 0)
    then run_remote_client
    else run_dynamic

abbrev pub Built : AddParams → Runner → TunnelConfig → Type 0
Built p r tc =
    (choose_runner tc ≡ some r)
    × (0 < length tc.name)
    × (tc.group ≡ p.group)
    × (tc.autostart ≡ p.autostart)

default_name_some : (s t : Bytes) → 0 < length t → 0 < length (default_name s t)
unfolding default_name
default_name_some s t h = ground arith

text_eq_nil : (s : Bytes) → text_eq s [] ≡ (length s == 0)
unfolding text_eq
text_eq_nil [] = refl
text_eq_nil (c ∷ s) = ground arith

local_config-Built :
    (p : AddParams) (tc : TunnelConfig) → local_config p ≡ ok tc → Built p run_local tc
unfolding local_config local_tunnel zero_config choose_runner text_eq
local_config-Built p tc h = go (parse_local_spec p.local) h
  where
    go :
        (r : Result SpecError (Bytes × Bytes))
        → (elim r as (λ x. Result AddError TunnelConfig) [
          | err e ↦ err (bad_spec e)
          | ok (listen, target) ↦ ok (local_tunnel listen target p)
        ])
          ≡ ok tc
        → Built p run_local tc
    go (err e) k = cc
    go (ok (listen, target)) k =
        let e : local_tunnel listen target p ≡ tc = cc in
        subst (Built p run_local) e
          (refl, default_name_some p.name (codes "local-" ++ p.local) (omega arith), refl, refl)

remote_config-Built :
    (p : AddParams) (tc : TunnelConfig) → remote_config p ≡ ok tc → Built p run_remote_client tc
unfolding remote_config remote_tunnel zero_config choose_runner text_eq
remote_config-Built p tc h = go (length p.server == 0) refl h
  where
    go :
        (b : Bool)
        → (length p.server == 0) ≡ b
        → (if b then err no_server else ok (remote_tunnel p)) ≡ ok tc
        → Built p run_remote_client tc
    go true q k = cc
    go false q k =
        let e : remote_tunnel p ≡ tc = cc in
        subst (Built p run_remote_client) e (
          rw (text_eq_nil p.server, q) refl,
          default_name_some p.name (codes "remote-" ++ p.remote) (omega arith),
          refl,
          refl,
        )

dynamic_tunnel-Built : (p : AddParams) → Built p run_dynamic (dynamic_tunnel p)
unfolding dynamic_tunnel zero_config choose_runner text_eq
dynamic_tunnel-Built p =
    (refl, default_name_some p.name (codes "dynamic-" ++ p.dynamic) (omega arith), refl, refl)

-- A tunnel that buildTunnelConfig makes from flags has a name, the group and autostart flag given,
-- and a mode for which the manager chooses the runner that the flags ask for.
pub build_tunnel_config-choose_runner :
    (p : AddParams) (tc : TunnelConfig)
    → build_tunnel_config p ≡ ok tc
    → (choose_runner tc ≡ some (flag_runner p))
      × (0 < length tc.name)
      × (tc.group ≡ p.group)
      × (tc.autostart ≡ p.autostart)
unfolding build_tunnel_config
build_tunnel_config-choose_runner p tc h =
    go (length p.local == 0) (length p.remote == 0) (length p.dynamic == 0) h
  where
    go :
        (l r d : Bool)
        → (if not l
            then local_config p
            else if not r
            then remote_config p
            else if not d
            then ok (dynamic_tunnel p)
            else err no_mode)
          ≡ ok tc
        → Built p (if not l then run_local else if not r then run_remote_client else run_dynamic) tc
    go false r d k = local_config-Built p tc k
    go true false d k = remote_config-Built p tc k
    go true true false k =
        let e : dynamic_tunnel p ≡ tc = cc in subst (Built p run_dynamic) e (dynamic_tunnel-Built p)
    go true true true k = cc
