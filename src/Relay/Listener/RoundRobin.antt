-- ===== src/Relay/Listener/RoundRobin.antt =====
-- dispatch of relay/remoteserver.go: who gets the next public connection.
use tunnelmanager.Prelude.{
  ◌%◌, ◌++◌, ◌+◌, ◌-◌, ◌<◌, ◌==◌, ◌∙◌, ◌∷◌, ◌≡◌, ◌≢◌, ◌≤◌, ◌⊎◌, Bool-cases, Bytes, List,
  Option-cases, [], ap, arith, drop, false, get_or, if◌then◌else◌, inl, inr, length, length-drop,
  map, none, refl, some, suc, sym, take, zero, ℕ,
}
use tunnelmanager.Relay.Listener.{
  lookup, SharedListener, without, remove_order, detach, dispatch, target_of,
}
use tunnelmanager.Relay.Listener.Invariant.{Inv, has_key, member, remove_order-Inv, lookup-without}
use native.Mathlib.Nat.{mod-eq_of_lt, mod-lt, add-zero, add-suc, suc-add, zero-add}
use native.Mathlib.Numerals.{add-one}
use mathlib.Core.List.{map-append}

-- Detaching a control connection keeps a listener in shape and takes the connection out of the
-- order; the flag to close the listener is set only when nobody is left.
pub detach-Inv :
    (who : ℕ) (sl : SharedListener)
    → Inv sl
    → Inv (detach who sl).0
      × (member who (detach who sl).0.order ≡ false)
      × (((detach who sl).1 ≡ false) ⊎ ((detach who sl).0.order ≡ []))
unfolding detach remove_order
detach-Inv who sl v = elim (Option-cases (lookup who sl.conns)) [
  | inl e ↦ rw (e, detach) (v, v.same_conns who ∙ rw (e, has_key), inl refl)
  | inr (t, e) ↦
      let w = remove_order-Inv who sl v t e in
      rw (e, detach)
        (
          w,
          w.same_conns who ∙ gone who sl,
          nobody (remove_order who (record sl { conns = without who sl.conns })).order,
        )
]
  where
    nobody : (cs : List ℕ) → ((length cs == 0) ≡ false) ⊎ (cs ≡ [])
    nobody [] = inr refl
    nobody (c ∷ cs) = inl (ground arith)

    gone :
        (who : ℕ) (sl : SharedListener)
        → has_key who (remove_order who (record sl { conns = without who sl.conns })).conns ≡ false
    gone who sl = ground (arith, lookup-without who who sl.conns)

-- The connections chosen by n dispatches in a row with their targets, and the listener after them.
pub picks : ℕ → SharedListener → List (ℕ × Bytes) × SharedListener
picks zero sl = ([], sl)
picks (suc n) sl =
    let (chosen, sl') = dispatch sl in
    let (rest, sl'') = picks n sl' in (elim chosen [ none ↦ rest | some c ↦ c ∷ rest ], sl'')

abbrev pub assigned : SharedListener → List ℕ → List (ℕ × Bytes)
assigned sl = map (λ c. (c, target_of sl.conns c))

drop_step : (i : ℕ) (xs : List ℕ) → i < length xs → drop i xs ≡ get_or xs i 0 ∷ drop (suc i) xs
drop_step i [] h = elim h [ ]
drop_step zero (x ∷ xs) h = refl
drop_step (suc i) (x ∷ xs) h = drop_step i xs (omega arith)

next_mod : (i n : ℕ) → i < n → (i + 1) % n ≡ (if suc i == n then 0 else suc i)
next_mod i n h = grind arith

-- One dispatch takes the connection at next and moves on, at the end back to the front.
dispatch_at :
    (sl : SharedListener)
    → sl.next < length sl.order
    → dispatch sl ≡ (
      some (get_or sl.order sl.next 0, target_of sl.conns (get_or sl.order sl.next 0)),
      record sl { next = if suc sl.next == length sl.order then 0 else suc sl.next },
    )
unfolding dispatch
dispatch_at sl h = ground (arith, next_mod sl.next (length sl.order), mod-eq_of_lt h)

picks_last : (n : ℕ) (sl : SharedListener) → n ≡ 0 → picks n sl ≡ ([], sl)
unfolding picks
picks_last zero sl e = refl
picks_last (suc n) sl e = absurd (omega arith)

-- As long as the end is not passed, the connections come in their order.
picks_run :
    (n : ℕ) (sl : SharedListener)
    → sl.next + n ≤ length sl.order
    → sl.next < length sl.order
    → let r = picks n sl in
      (r.0 ≡ assigned sl (take n (drop sl.next sl.order)))
      × (r.1 ≡ record sl { next = if sl.next + n == length sl.order then 0 else sl.next + n })
unfolding picks
picks_run zero sl h k = (refl, rw add-zero (ground arith))
picks_run (suc n) sl h k = elim (Bool-cases (suc sl.next == length sl.order)) [
  | inl last ↦
      let e : n ≡ 0 = ground arith in
      ground (
        arith,
        dispatch_at sl k,
        drop_step sl.next sl.order k,
        picks_last n (dispatch sl).1 e,
        add-one sl.next,
      )
  | inr more ↦ ground (
    arith,
    dispatch_at sl k,
    drop_step sl.next sl.order k,
    picks_run n (record sl { next = suc sl.next }) (omega arith) (ground arith),
    add-suc sl.next n,
    suc-add sl.next n,
  )
]

picks-add :
    (a b : ℕ) (sl : SharedListener)
    → picks (a + b) sl ≡ ((picks a sl).0 ++ (picks b (picks a sl).1).0, (picks b (picks a sl).1).1)
unfolding picks
picks-add zero b sl = rw zero-add
picks-add (suc a) b sl = rw suc-add (ground (arith, picks-add a b (dispatch sl).1))

take_all : (n : ℕ) (xs : List ℕ) → length xs ≤ n → take n xs ≡ xs
take_all zero [] h = refl
take_all zero (x ∷ xs) h = absurd (omega arith)
take_all (suc n) [] h = refl
take_all (suc n) (x ∷ xs) h = ap (◌∷◌ x) (take_all n xs (omega arith))

-- On a listener in shape with at least one connection, as many dispatches as there are connections
-- serve each connection once, in round-robin order from next on, with its registered target, and
-- leave the listener as it was.
pub picks_round :
    (sl : SharedListener)
    → Inv sl
    → sl.order ≢ []
    → picks (length sl.order) sl
      ≡ (assigned sl (drop sl.next sl.order ++ take sl.next sl.order), sl)
picks_round sl v some_order =
    let valid : sl.next < length sl.order = ground (arith, v.next_valid) in
    let left = length sl.order - sl.next in
    let total_left : left + sl.next ≡ length sl.order = omega arith in
    let (p1, s1) = picks_run left sl (omega arith) valid in
    let (p2, s2) = picks_run sl.next (record sl { next = 0 }) (omega arith) (omega arith) in
    let front : (picks left sl).1 ≡ record sl { next = 0 } = ground arith in
    let back : (picks sl.next (record sl { next = 0 })).1 ≡ sl = ground arith in
    let whole =
      take_all left (drop sl.next sl.order) (omega (arith, length-drop sl.next sl.order)) in
    ap (λ (k : ℕ). picks k sl) (sym total_left)
    ∙ picks-add left sl.next sl
    ∙ rw (front, back, p1, p2, whole) (rw map-append)

-- A dispatch keeps the invariant: next stays inside the order.
pub dispatch-Inv : (sl : SharedListener) → Inv sl → Inv (dispatch sl).1
unfolding dispatch
dispatch-Inv sl v = elim (Bool-cases (length sl.order == 0)) [
  | inl none_left ↦ rw none_left v
  | inr some_left ↦ rw some_left (record {
    distinct = v.distinct;
    same_conns = v.same_conns;
    next_valid = inl (mod-lt (sl.next + 1) {m = length sl.order} (ground arith));
  })
]
