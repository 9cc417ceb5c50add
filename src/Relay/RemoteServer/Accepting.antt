-- ===== src/Relay/RemoteServer/Accepting.antt =====
-- relay/remoteserver.go: the loops of Serve, acceptLoop and listenTunnel. What net.Listen and Accept
-- return and what the clock shows are arguments.
pub mod Waiting
use tunnelmanager.Prelude.{
  ◌+◌, ◌∷◌, Bool, Bytes, List, Option, [], false, if◌then◌else◌, ltb, none, not, some, suc, true,
  zero, ℕ,
}
use tunnelmanager.Relay.Listener.{dispatch, SharedListener}

-- What Serve is told by Accept: a connection, or an error, with whether the server was closed.
pub data Accepted (A : Type 0) : Type 0 where
  accepted_conn : A → Accepted A
  accept_failed : Bool → Accepted A

-- The result of Serve: whether it returned an error; none when Accept goes on. The connections
-- that were taken come first.
unfoldable pub serve : {A : Type 0} → List (Accepted A) → List A × Option Bool
serve [] = ([], none)
serve (accepted_conn c ∷ xs) = let rest = serve xs in (c ∷ rest.0, rest.1)
serve (accept_failed done ∷ xs) = ([], some (not done))

-- acceptLoop: which control connection and target get each connection; none where it is closed.
unfoldable pub accept_loop :
    {A : Type 0} → List (Option A) → SharedListener → List (A × Option (ℕ × Bytes)) × SharedListener
accept_loop [] sl = ([], sl)
accept_loop (none ∷ xs) sl = ([], sl)
accept_loop (some c ∷ xs) sl =
    let d = dispatch sl in let rest = accept_loop xs d.1 in ((c, d.0) ∷ rest.0, rest.1)

-- The loop of listenTunnel from its n-th turn. `opens`, `clock` and `died` say for each turn
-- whether net.Listen succeeds, what time it is then, in milliseconds, and whether the control
-- connection died before the wait of 100 ms was over. The result is whether it has a listener.
unfoldable pub listen_from : (ℕ → Bool) → (ℕ → ℕ) → (ℕ → Bool) → ℕ → ℕ → ℕ → Option Bool
listen_from opens clock died deadline zero n = none
listen_from opens clock died deadline (suc fuel) n =
    let rest = listen_from opens clock died deadline fuel (suc n) in
    if opens n
    then some true
    else if ltb deadline (clock n)
    then some false
    else if died n
    then some false
    else rest

-- listenTunnel, called at `start`.
unfoldable pub listen_tunnel : (ℕ → Bool) → (ℕ → ℕ) → (ℕ → Bool) → ℕ → Option Bool
unfolding listen_from
listen_tunnel opens clock died start = listen_from opens clock died (start + 3000) 32 0
