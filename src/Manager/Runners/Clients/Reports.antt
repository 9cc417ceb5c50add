-- ===== src/Manager/Runners/Clients/Reports.antt =====
-- manager/manager.go: what the ticks of a remote tunnel with several connections report.
use tunnelmanager.Prelude.{
  ◌<◌, ◌==◌, ◌∙◌, ◌∷◌, ◌≡◌, ◌≤◌, All, Bool-cases, Bytes, List, [], arith, codes, false, get_elem?,
  if_split, inl, inr, length, ltb, refl, some, suc, text_eq, text_eq_refl, true, ℕ,
}
use tunnelmanager.Manager.Tunnels.{TunnelState, set_state, set_reconnect_count}
use tunnelmanager.Manager.Runners.Clients.{
  count_connected, total_reconnects, clients_status, multi_tick,
}
use tunnelmanager.Relay.RemoteClient.{RemoteClient, is_connected}

abbrev pub IsUp : RemoteClient → Type 0
IsUp rc = is_connected rc ≡ true

abbrev pub IsDown : RemoteClient → Type 0
IsDown rc = is_connected rc ≡ false

-- The status that fits the clients.
pub data Fits (rcs : List RemoteClient) : Bytes → Type 0 where
  all_up : All IsUp rcs → Fits rcs (codes "established")
  some_up :
      (i j : ℕ) (up down : RemoteClient)
      → get_elem? rcs i ≡ some up
      → IsUp up
      → get_elem? rcs j ≡ some down
      → IsDown down
      → Fits rcs (codes "degraded")
  all_down : All IsDown rcs → Fits rcs (codes "reconnecting")

count_le : (rcs : List RemoteClient) → count_connected rcs ≤ length rcs
unfolding count_connected
count_le [] = omega arith
count_le (rc ∷ rcs) = ground (arith, count_le rcs)

full_count : (rcs : List RemoteClient) → count_connected rcs ≡ length rcs → All IsUp rcs
unfolding count_connected
full_count [] h = tt
full_count (rc ∷ rcs) h = elim (Bool-cases (is_connected rc)) [
  | inl e ↦ (e, full_count rcs (ground arith))
  | inr e ↦ absurd (ground (arith, count_le rcs))
]

no_count : (rcs : List RemoteClient) → count_connected rcs ≡ 0 → All IsDown rcs
unfolding count_connected
no_count [] h = tt
no_count (rc ∷ rcs) h = elim (Bool-cases (is_connected rc)) [
  | inl e ↦ absurd (ground arith)
  | inr e ↦ (e, no_count rcs (ground arith))
]

some_count :
    (rcs : List RemoteClient)
    → 0 < count_connected rcs
    → (i : ℕ) × (rc : RemoteClient) × (get_elem? rcs i ≡ some rc) × IsUp rc
unfolding count_connected
some_count [] h = absurd (omega arith)
some_count (rc ∷ rcs) h = elim (Bool-cases (is_connected rc)) [
  | inl e ↦ (0, rc, refl, e)
  | inr e ↦ let (i, r, at, up) = some_count rcs (ground arith) in (suc i, r, at, up)
]

missing :
    (rcs : List RemoteClient)
    → count_connected rcs < length rcs
    → (i : ℕ) × (rc : RemoteClient) × (get_elem? rcs i ≡ some rc) × IsDown rc
unfolding count_connected
missing [] h = absurd (omega arith)
missing (rc ∷ rcs) h = elim (Bool-cases (is_connected rc)) [
  | inl e ↦ let (i, r, at, off) = missing rcs (ground arith) in (suc i, r, at, off)
  | inr e ↦ (0, rc, refl, e)
]

clients_status-Fits :
    (rcs : List RemoteClient) → Fits rcs (clients_status (count_connected rcs) (length rcs))
unfolding clients_status
clients_status-Fits rcs =
    if_split (Fits rcs) (count_connected rcs == length rcs)
      (λ e. all_up (full_count rcs (ground arith)))
      (λ e.
        if_split (Fits rcs) (ltb 0 (count_connected rcs))
          (λ p.
            let (i, up, at, on) = some_count rcs (ground arith) in
            let (j, low, at', off) = missing rcs (ground (arith, count_le rcs)) in
            some_up i j up low at on at' off)
          (λ p. all_down (no_count rcs (ground arith))))

-- A tick of runRemoteClientMulti sets the status established when all clients are connected,
-- reconnecting when none is, and degraded when one is and another is not, and the sum of their
-- reconnect counts, without an error text.
pub multi_tick-Fits :
    (now : ℕ) (rcs : List RemoteClient) (ts : TunnelState)
    → Fits rcs (multi_tick now rcs ts).status
      × ((multi_tick now rcs ts).reconnect_count ≡ total_reconnects rcs)
      × ((multi_tick now rcs ts).last_err ≡ [])
unfolding multi_tick set_state set_reconnect_count
multi_tick-Fits now rcs ts = (clients_status-Fits rcs, refl, refl)

-- The ticks of a runner, each with its time and the clients as they are then.
unfoldable pub multi_ticks : List (ℕ × List RemoteClient) → TunnelState → TunnelState
multi_ticks [] ts = ts
multi_ticks ((now, rcs) ∷ rest) ts = multi_ticks rest (multi_tick now rcs ts)

abbrev pub Reported : Bytes → ℕ × List RemoteClient → Type 0
Reported s (now, rcs) = clients_status (count_connected rcs) (length rcs) ≡ s

tick_same :
    (now : ℕ) (rcs : List RemoteClient) (s : Bytes) (ts : TunnelState)
    → clients_status (count_connected rcs) (length rcs) ≡ s
    → ts.status ≡ s
    → (multi_tick now rcs ts).since ≡ ts.since
unfolding multi_tick set_state set_reconnect_count
tick_same now rcs s ts h at = rw (multi_tick, set_state, h, at, text_eq_refl s)

tick_new :
    (now : ℕ) (rcs : List RemoteClient) (s : Bytes) (ts : TunnelState)
    → clients_status (count_connected rcs) (length rcs) ≡ s
    → text_eq ts.status s ≡ false
    → (multi_tick now rcs ts).since ≡ now
unfolding multi_tick set_state set_reconnect_count
tick_new now rcs s ts h new = rw (multi_tick, set_state, h, new)

tick_status :
    (now : ℕ) (rcs : List RemoteClient) (s : Bytes) (ts : TunnelState)
    → clients_status (count_connected rcs) (length rcs) ≡ s
    → (multi_tick now rcs ts).status ≡ s
unfolding multi_tick set_state set_reconnect_count
tick_status now rcs s ts h = h

kept :
    (s : Bytes) (ticks : List (ℕ × List RemoteClient)) (ts : TunnelState)
    → ts.status ≡ s
    → All (Reported s) ticks
    → ((multi_ticks ticks ts).status ≡ s) × ((multi_ticks ticks ts).since ≡ ts.since)
unfolding multi_ticks
kept s [] ts at h = (at, refl)
kept s ((now, rcs) ∷ rest) ts at h =
    let (status, since) = kept s rest (multi_tick now rcs ts) (tick_status now rcs s ts h.0) h.1 in
    (status, since ∙ tick_same now rcs s ts h.0 at)

pub multi_ticks-since :
    (s : Bytes) (now : ℕ) (rcs : List RemoteClient) (rest : List (ℕ × List RemoteClient))
    (ts : TunnelState)
    → text_eq ts.status s ≡ false
    → All (Reported s) ((now, rcs) ∷ rest)
    → ((multi_ticks ((now, rcs) ∷ rest) ts).status ≡ s)
      × ((multi_ticks ((now, rcs) ∷ rest) ts).since ≡ now)
unfolding multi_ticks
multi_ticks-since s now rcs rest ts new h =
    let (status, since) = kept s rest (multi_tick now rcs ts) (tick_status now rcs s ts h.0) h.1 in
    (status, since ∙ tick_new now rcs s ts h.0 new)
