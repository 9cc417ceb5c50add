-- ===== src/Manager/Tunnels/Invariant.antt =====
-- The running tunnels of manager/manager.go.
use tunnelmanager.Prelude.{
  ◌∷◌, ◌≡◌, ◌≢◌, All, Bool, Bytes, List, Option-cases, [], arith, if_both, inl, inr, none, refl,
  some, text_eq, text_eq_iff,
}
use tunnelmanager.Manager.Tunnels.{
  ManagedTunnel, Manager, lookup, without, choose_runner, start_one, start_where, stop, stop_tunnel,
  stop_running, without_group, stop_group,
}
use tunnelmanager.Manager.Config.{TunnelConfig}

-- A tunnel runs under the name of its configuration, and with the runner for its mode.
abbrev pub Runs : Bytes × ManagedTunnel → Type 0
Runs (n, t) = (t.cfg.name ≡ n) × (choose_runner t.cfg ≡ some t.runner)

abbrev pub NotRunning : Bytes → List (Bytes × ManagedTunnel) → Type 0
NotRunning n = All (λ e. e.0 ≢ n)

abbrev pub Once : List (Bytes × ManagedTunnel) → Type 0
Once [] = Unit
Once ((n, t) ∷ m) = NotRunning n m × Once m

pub record Inv (m : Manager) : Type 0 where
  pub runs : All Runs m.tunnels
  pub once : Once m.tunnels

not_running : (n : Bytes) (m : List (Bytes × ManagedTunnel)) → lookup n m ≡ none → NotRunning n m
unfolding lookup
not_running n [] h = tt
not_running n ((j, t) ∷ m) h = (ground (arith, text_eq_iff j n), not_running n m (ground arith))

without-All :
    (P : Bytes × ManagedTunnel → Type 0) (n : Bytes) (m : List (Bytes × ManagedTunnel))
    → All P m
    → All P (without n m)
unfolding without
without-All P n [] h = tt
without-All P n ((j, t) ∷ m) h =
    if_both (All P) (text_eq j n) (without-All P n m h.1) (h.0, without-All P n m h.1)

without-Once : (n : Bytes) (m : List (Bytes × ManagedTunnel)) → Once m → Once (without n m)
unfolding without
without-Once n [] h = tt
without-Once n ((j, t) ∷ m) h =
    if_both Once (text_eq j n) (without-Once n m h.1)
      (without-All (λ e. e.0 ≢ j) n m h.0, without-Once n m h.1)

without_group-All :
    (P : Bytes × ManagedTunnel → Type 0) (g : Bytes) (m : List (Bytes × ManagedTunnel))
    → All P m
    → All P (without_group g m)
unfolding without_group
without_group-All P g [] h = tt
without_group-All P g ((j, t) ∷ m) h =
    if_both (All P) (text_eq t.cfg.group g) (without_group-All P g m h.1)
      (h.0, without_group-All P g m h.1)

without_group-Once :
    (g : Bytes) (m : List (Bytes × ManagedTunnel)) → Once m → Once (without_group g m)
unfolding without_group
without_group-Once g [] h = tt
without_group-Once g ((j, t) ∷ m) h =
    if_both Once (text_eq t.cfg.group g) (without_group-Once g m h.1)
      (without_group-All (λ e. e.0 ≢ j) g m h.0, without_group-Once g m h.1)

pub start_one-Inv : (tc : TunnelConfig) (m : Manager) → Inv m → Inv (start_one tc m).1
unfolding start_one
start_one-Inv tc m v = elim (Option-cases (lookup tc.name m.tunnels)) [
  | inr (t, e) ↦ rw (e, start_one) v
  | inl e ↦ elim (Option-cases (choose_runner tc)) [
    | inl u ↦ rw (e, u, start_one) v
    | inr (r, u) ↦
        rw (e, u, start_one)
          (record { runs = ((refl, u), v.runs); once = (not_running tc.name m.tunnels e, v.once) })
  ]
]

pub start_where_keeps :
    (P : Manager → Type 0)
    → ((tc : TunnelConfig) (m : Manager) → P m → P (start_one tc m).1)
    → (wanted : TunnelConfig → Bool) (tcs : List TunnelConfig) (m : Manager) → P m
    → P (start_where wanted tcs m)
unfolding start_where
start_where_keeps P k wanted [] m v = v
start_where_keeps P k wanted (tc ∷ tcs) m v =
    start_where_keeps P k wanted tcs _ (if_both P (wanted tc) (k tc m v) v)

pub stop-Inv : (m : Manager) → Inv (stop m)
unfolding stop
stop-Inv m = record { runs = tt; once = tt }

pub stop_group-Inv : (g : Bytes) (m : Manager) → Inv m → Inv (stop_group g m)
unfolding stop_group
stop_group-Inv g m v = record {
  runs = without_group-All Runs g m.tunnels v.runs;
  once = without_group-Once g m.tunnels v.once;
}

pub stop_running-Inv : (n : Bytes) (m : Manager) → Inv m → Inv (stop_running n m)
unfolding stop_running stop_tunnel
stop_running-Inv n m v = elim (Option-cases (lookup n m.tunnels)) [
  | inl e ↦ rw (e, stop_running) v
  | inr (t, e) ↦
      rw (e, stop_running)
        (record {
          runs = without-All Runs n m.tunnels v.runs;
          once = without-Once n m.tunnels v.once;
        })
]
