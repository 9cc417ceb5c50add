-- ===== src/Manager/Runners/Clients/Count.antt =====
-- manager/manager.go: how many clients a remote tunnel with several connections has.
use tunnelmanager.Prelude.{
  ◌∷◌, ◌≡◌, ◌≤◌, [], ap, arith, exceeds, length, min, negsuc, pos, refl, some, subst, suc, sym,
  to_nat, true, zero, ℕ, ℤ,
}
use tunnelmanager.Manager.Tunnels.{run_remote_client_multi, choose_runner}
use tunnelmanager.Manager.Config.{TunnelConfig}
use tunnelmanager.Manager.Runners.Clients.{clamp, replicate, start_clients}
use tunnelmanager.Relay.Register.{RemoteTunnel}
use tunnelmanager.Relay.RemoteClient.{new_remote_client}

length-replicate : {A : Type 0} (n : ℕ) (x : A) → length (replicate n x) ≡ n
length-replicate zero x = refl
length-replicate (suc n) x = ap suc (length-replicate n x)

many_connections :
    (tc : TunnelConfig)
    → choose_runner tc ≡ some run_remote_client_multi
    → exceeds tc.connections 1 ≡ true
unfolding choose_runner
many_connections tc h = ground arith

clamp_many :
    (z : ℤ) → exceeds z 1 ≡ true → (2 ≤ clamp z) × (clamp z ≤ 10) × (clamp z ≡ min (to_nat z) 10)
unfolding clamp
clamp_many (negsuc n) h = cc
clamp_many (pos n) h = (ground arith, ground arith, ground arith)

-- Where startOne chooses runRemoteClientMulti, it runs as many clients as the configured
-- connections, but at most 10, and at least 2.
pub start_clients-bounds :
    (tc : TunnelConfig) (tunnel : RemoteTunnel)
    → choose_runner tc ≡ some run_remote_client_multi
    → let n = length (start_clients tc tunnel) in
      (2 ≤ n) × (n ≤ 10) × (n ≡ min (to_nat tc.connections) 10)
unfolding start_clients
start_clients-bounds tc tunnel h =
    subst (λ n. (2 ≤ n) × (n ≤ 10) × (n ≡ min (to_nat tc.connections) 10))
      (sym (length-replicate (clamp tc.connections) (new_remote_client tc.token (tunnel ∷ []))))
      (clamp_many tc.connections (many_connections tc h))
