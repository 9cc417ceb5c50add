-- ===== src/Relay/RemoteServer/Accepting/Waiting.antt =====
-- relay/remoteserver.go: listenTunnel comes back.
use tunnelmanager.Prelude.{
  ◌*◌, ◌+◌, ◌<◌, ◌≡◌, ◌≤◌, ◌⊎◌, Bool, Option, arith, false, if_split, inl, inr, ltb, refl, some,
  suc, true, zero, ℕ,
}
use tunnelmanager.Relay.RemoteServer.Accepting.{listen_from, listen_tunnel}

module _ (opens : ℕ → Bool) (clock : ℕ → ℕ) (died : ℕ → Bool) (start : ℕ) where
  -- The first turn begins after the call, and each turn 100 ms after the one before it, or later.
  abbrev pub Paced : Type 0
  Paced = (start ≤ clock 0) × ((n : ℕ) → clock n + 100 ≤ clock (suc n))

  -- How the loop ends, at one of its first 32 turns.
  pub data Ends : Bool → Type 0 where
    listens : (n : ℕ) → n ≤ 31 → opens n ≡ true → Ends true
    gives_up :
        (n : ℕ) → n ≤ 31 → opens n ≡ false → (start + 3000 < clock n) ⊎ (died n ≡ true) → Ends false

  -- The loop has a result, which is one of these.
  abbrev pub EndsIn : Option Bool → Type 0
  EndsIn r = (b : Bool) × (r ≡ some b) × Ends b

  clock_at : Paced → (n : ℕ) → start + 100 * n ≤ clock n
  clock_at p zero = omega (arith, p.0)
  clock_at p (suc n) = omega (arith, clock_at p n, p.1 n)

  listen_from-EndsIn :
      (fuel n : ℕ)
      → Paced
      → suc fuel + n ≡ 32
      → EndsIn (listen_from opens clock died (start + 3000) (suc fuel) n)
  unfolding listen_from
  listen_from-EndsIn zero n p h =
      if_split EndsIn (opens n) (λ o. (true, refl, listens n (omega arith) o))
        (λ o.
          if_split EndsIn (ltb (start + 3000) (clock n))
            (λ l. (false, refl, gives_up n (omega arith) o (inl (ground arith))))
            (λ l. absurd (let c : start + 100 * n ≤ clock n = clock_at p n in ground arith)))
  listen_from-EndsIn (suc fuel) n p h =
      if_split EndsIn (opens n) (λ o. (true, refl, listens n (omega arith) o))
        (λ o.
          if_split EndsIn (ltb (start + 3000) (clock n))
            (λ l. (false, refl, gives_up n (omega arith) o (inl (ground arith))))
            (λ l.
              if_split EndsIn (died n) (λ d. (false, refl, gives_up n (omega arith) o (inr d)))
                (λ d. listen_from-EndsIn fuel (suc n) p (omega arith))))

  -- listenTunnel comes back within 32 turns, when the first turn begins at the call or later and
  -- each next one 100 ms or more after the one before: with a listener that net.Listen gave it, or
  -- without one at a turn in which net.Listen failed and the deadline was over or the control
  -- connection had died.
  pub listen_tunnel-EndsIn : Paced → EndsIn (listen_tunnel opens clock died start)
  unfolding listen_tunnel
  listen_tunnel-EndsIn p = listen_from-EndsIn 31 0 p refl
