-- ===== src/Manager/Tunnels/Maps.antt =====
-- The map of running tunnels and the list of configured ones (manager/manager.go).
use tunnelmanager.Prelude.{
  ◌++◌, ◌∙◌, ◌∷◌, ◌≡◌, ◌≢◌, All, Bool-cases, Bytes, List, Option, Option-cases, [], ap, arith, drop,
  get_elem?, if◌then◌else◌, inl, inr, none, ok, refl, some, subst, suc, sym, take, text_eq,
  text_eq_iff, text_eq_refl, zero, ℕ,
}
use tunnelmanager.Manager.Tunnels.{
  ManagedTunnel, lookup, without, find_config, Runner, fresh_state, Manager, choose_runner,
  start_one, stop_tunnel, stop_running,
}
use tunnelmanager.Manager.Config.{TunnelConfig}

pub lookup-without :
    (k j : Bytes) (m : List (Bytes × ManagedTunnel))
    → lookup j (without k m) ≡ (if text_eq k j then none else lookup j m)
unfolding lookup without
lookup-without k j [] = ground arith
lookup-without k j ((i, t) ∷ m) =
    ground (arith, lookup-without k j m, text_eq_iff i k, text_eq_iff i j, text_eq_iff k j)

pub lookup-cons :
    (k j : Bytes) (t : ManagedTunnel) (m : List (Bytes × ManagedTunnel))
    → lookup j ((k, t) ∷ m) ≡ (if text_eq k j then some t else lookup j m)
unfolding lookup
lookup-cons k j t m = refl

-- What a group stop leaves under a name.
abbrev pub outside : Bytes → Option ManagedTunnel → Option ManagedTunnel
outside g none = none
outside g (some t) = if text_eq t.cfg.group g then none else some t

-- All names are different.
abbrev pub NotNamed : Bytes → List TunnelConfig → Type 0
NotNamed n = All (λ tc. tc.name ≢ n)

abbrev pub Distinct : List TunnelConfig → Type 0
Distinct [] = Unit
Distinct (tc ∷ tcs) = NotNamed tc.name tcs × Distinct tcs

pub find_config-none :
    (n : Bytes) (tcs : List TunnelConfig) → find_config n tcs ≡ none → NotNamed n tcs
unfolding find_config
find_config-none n [] h = tt
find_config-none n (tc ∷ tcs) h =
    (ground (arith, text_eq_iff tc.name n), find_config-none n tcs (ground arith))

pub find_config-some :
    (n : Bytes) (i : ℕ) (tcs : List TunnelConfig)
    → find_config n tcs ≡ some i
    → (tc : TunnelConfig) × (get_elem? tcs i ≡ some tc) × (tc.name ≡ n)
unfolding find_config
find_config-some n i [] h = cc
find_config-some n zero (tc ∷ tcs) h = (tc, refl, ground (arith, text_eq_iff tc.name n))
find_config-some n (suc i) (tc ∷ tcs) h =
    let (tc', e, same) = find_config-some n i tcs (ground arith) in (tc', e, same)

pub NotNamed-append :
    (n : Bytes) (tcs : List TunnelConfig) (tc : TunnelConfig)
    → NotNamed n tcs
    → tc.name ≢ n
    → NotNamed n (tcs ++ (tc ∷ []))
NotNamed-append n [] tc h k = (k, tt)
NotNamed-append n (x ∷ tcs) tc h k = (h.0, NotNamed-append n tcs tc h.1 k)

pub Distinct-append :
    (tcs : List TunnelConfig) (tc : TunnelConfig)
    → Distinct tcs
    → NotNamed tc.name tcs
    → Distinct (tcs ++ (tc ∷ []))
Distinct-append [] tc d h = (tt, tt)
Distinct-append (x ∷ tcs) tc d h =
    (NotNamed-append x.name tcs tc d.0 (λ e. h.0 (sym e)), Distinct-append tcs tc d.1 h.1)

-- `append(s[:i], s[i+1:]...)`.
abbrev pub cut_out : ℕ → List TunnelConfig → List TunnelConfig
cut_out i tcs = take i tcs ++ drop (suc i) tcs

pub cut_out-All :
    (P : TunnelConfig → Type 0) (i : ℕ) (tcs : List TunnelConfig)
    → All P tcs
    → All P (cut_out i tcs)
cut_out-All P zero [] h = tt
cut_out-All P zero (x ∷ tcs) h = h.1
cut_out-All P (suc i) [] h = tt
cut_out-All P (suc i) (x ∷ tcs) h = (h.0, cut_out-All P i tcs h.1)

pub cut_out-Distinct : (i : ℕ) (tcs : List TunnelConfig) → Distinct tcs → Distinct (cut_out i tcs)
cut_out-Distinct zero [] d = tt
cut_out-Distinct zero (x ∷ tcs) d = d.1
cut_out-Distinct (suc i) [] d = tt
cut_out-Distinct (suc i) (x ∷ tcs) d =
    (cut_out-All (λ tc. tc.name ≢ x.name) i tcs d.0, cut_out-Distinct i tcs d.1)

-- Cutting out the found entry of a list of different names leaves nobody of that name.
pub cut_out_found :
    (n : Bytes) (i : ℕ) (tcs : List TunnelConfig)
    → find_config n tcs ≡ some i
    → Distinct tcs
    → NotNamed n (cut_out i tcs)
unfolding find_config
cut_out_found n i [] h d = cc
cut_out_found n zero (tc ∷ tcs) h d =
    let e : tc.name ≡ n = ground (arith, text_eq_iff tc.name n) in subst (λ k. NotNamed k tcs) e d.0
cut_out_found n (suc i) (tc ∷ tcs) h d =
    (ground (arith, text_eq_iff tc.name n), cut_out_found n i tcs (ground arith) d.1)

pub find_config_last :
    (tcs : List TunnelConfig) (tc : TunnelConfig)
    → (i : ℕ) × (find_config tc.name (tcs ++ (tc ∷ [])) ≡ some i)
unfolding find_config
find_config_last [] tc = (0, ground (arith, text_eq_refl tc.name))
find_config_last (x ∷ tcs) tc =
    let (i, e) = find_config_last tcs tc in
    elim (Bool-cases (text_eq x.name tc.name)) [
      | inl same ↦ (0, rw same)
      | inr other ↦ (suc i, rw (other, e))
    ]

-- A configuration that is not running and whose mode is known runs after startOne, in a fresh
-- state; every other name is left alone.
pub start_one_idle :
    (tc : TunnelConfig) (k : Runner) (m : Manager)
    → lookup tc.name m.tunnels ≡ none
    → choose_runner tc ≡ some k
    → let r = start_one tc m in
      (r.0 ≡ ok tt)
      × ((j : Bytes)
          → lookup j r.1.tunnels ≡ (
              if text_eq tc.name j
              then some (record { cfg = tc; runner = k; state = fresh_state })
              else lookup j m.tunnels))
unfolding start_one lookup
start_one_idle tc k m idle mode = (ground arith, λ j. ground arith)

-- stopTunnelLocked on a name that runs, and nothing otherwise.
pub lookup-stop_running :
    (n j : Bytes) (m : Manager)
    → lookup j (stop_running n m).tunnels ≡ (if text_eq n j then none else lookup j m.tunnels)
unfolding stop_running stop_tunnel
lookup-stop_running n j m = elim (Option-cases (lookup n m.tunnels)) [
  | inl e ↦
      rw (e, stop_running)
        (elim (Bool-cases (text_eq n j)) [
          | inl same ↦
              rw same (ap (λ (k : Bytes). lookup k m.tunnels) (sym ((text_eq_iff n j).0 same)) ∙ e)
          | inr other ↦ rw other
        ])
  | inr (t, e) ↦ rw (e, stop_running) (lookup-without n j m.tunnels)
]

-- Starting a tunnel changes neither the configuration nor a file.
pub start_one-cfg : (tc : TunnelConfig) (m : Manager) → (start_one tc m).1.cfg ≡ m.cfg
unfolding start_one
start_one-cfg tc m = ground arith

pub start_one-disk : (tc : TunnelConfig) (m : Manager) → (start_one tc m).1.disk ≡ m.disk
unfolding start_one
start_one-disk tc m = ground arith

pub stop_running-cfg : (n : Bytes) (m : Manager) → (stop_running n m).cfg ≡ m.cfg
unfolding stop_running
stop_running-cfg n m = ground arith

pub stop_running-disk : (n : Bytes) (m : Manager) → (stop_running n m).disk ≡ m.disk
unfolding stop_running
stop_running-disk n m = ground arith
