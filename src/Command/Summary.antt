-- ===== src/Command/Summary.antt =====
-- main.go: the counts that `status` shows, against the states of the tunnels.
use tunnelmanager.Prelude.{
  ◌-◌, ◌∷◌, ◌≡◌, Bytes, List, [], ap, arith, codes, false, length, map, refl, suc, text_eq, ℕ,
}
use tunnelmanager.Manager.Operations.{list, TunnelStatus, tunnel_status}
use tunnelmanager.Command.{count_running, summary}
use tunnelmanager.Manager.Tunnels.{Manager}
use tunnelmanager.Manager.Config.{TunnelConfig}

-- A tunnel whose state is error.
pub data AllFailed : List TunnelStatus → Type 0 where
  none_left : AllFailed []
  failed_one :
      {s : TunnelStatus}
      → {ss : List TunnelStatus} → s.status ≡ codes "error"
      → AllFailed ss
      → AllFailed (s ∷ ss)

error_is_not_stopped : (s : Bytes) → s ≡ codes "error" → text_eq s (codes "stopped") ≡ false
unfolding text_eq
error_is_not_stopped s e = rw (e) refl

count_running-AllFailed : (ss : List TunnelStatus) → AllFailed ss → count_running ss ≡ length ss
unfolding count_running
count_running-AllFailed [] none_left = refl
count_running-AllFailed (s ∷ ss) (failed_one e a) =
    rw (error_is_not_stopped s.status e) (ap suc (count_running-AllFailed ss a))

minus_self : (n : ℕ) → n - n ≡ 0
minus_self n = omega arith

length-map :
    (f : TunnelConfig → TunnelStatus) (tcs : List TunnelConfig) → length (map f tcs) ≡ length tcs
length-map f [] = refl
length-map f (tc ∷ tcs) = ap suc (length-map f tcs)

length-list : (m : Manager) → length (list m) ≡ length m.cfg.tunnels
unfolding list
length-list m = length-map (tunnel_status m) m.cfg.tunnels

-- When the state of every tunnel is error, `status` shows all configured tunnels as running and
-- none as stopped.
pub failed_shown_running :
    (m : Manager)
    → AllFailed (list m)
    → summary (list m) ≡ (length m.cfg.tunnels, length m.cfg.tunnels, 0)
unfolding summary
failed_shown_running m a =
    let e : count_running (list m) ≡ length (list m) = count_running-AllFailed (list m) a in
    rw (e, length-list m, minus_self (length m.cfg.tunnels)) refl
