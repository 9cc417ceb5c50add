-- ===== src/Relay/RemoteServer/Shutdown/Closing.antt =====
-- relay/remoteserver.go: closing a listener when its last connection left, and all with Close.
use tunnelmanager.Prelude.{
  ◌++◌, ◌==◌, ◌∙◌, ◌∷◌, ◌≡◌, ◌≢◌, Bool, Bool-cases, List, Option, Option-cases, [], ap, false,
  get_elem?, if_both, if_split, if◌then◌else◌, inl, inr, none, refl, some, some-injective, subst,
  sym, true, ℕ,
}
use mathlib.Core.List.{Memᴰ}
use tunnelmanager.Relay.RemoteServer.Shutdown.Tracked.{Live, Tracked, update-Tracked}
use tunnelmanager.Relay.Listener.{close, ListenerKey, SharedListener, key_eq}
use tunnelmanager.Relay.RemoteServer.{
  delete, update, RemoteServer, find, close_at, drop_entry, listed, close_first,
}
use tunnelmanager.Relay.RemoteServer.Shutdown.Tables.{
  get_elem?-update, equal_nat, key_eq_sound, find-delete_other, get_elem?-update_cases,
}
use mathlib.Core.List.Memᴰ

pub close-closed : (sl : SharedListener) → (close sl).0.closed ≡ true
unfolding close
close-closed sl =
    if_split (λ (r : SharedListener × Bool). r.0.closed ≡ true) sl.closed (λ e. e) (λ e. refl)

close-key : (sl : SharedListener) → (close sl).0.key ≡ sl.key
unfolding close
close-key sl = if_both (λ (r : SharedListener × Bool). r.0.key ≡ sl.key) sl.closed refl refl

pub close_at-none : (p : ℕ) (rs : RemoteServer) → get_elem? rs.heap p ≡ none → close_at p rs ≡ rs
unfolding close_at
close_at-none p rs e = rw (e, close_at) refl

pub close_at-some :
    (p : ℕ) (rs : RemoteServer) (sl : SharedListener)
    → get_elem? rs.heap p ≡ some sl
    → close_at p rs ≡ record rs { heap = update p (close sl).0 rs.heap }
unfolding close_at
close_at-some p rs sl e = rw (e, close_at) refl

pub close_at-Tracked :
    (ps : List ℕ) (p : ℕ) (rs : RemoteServer) → Tracked ps rs → Tracked ps (close_at p rs)
close_at-Tracked ps p rs h = elim (Option-cases (get_elem? rs.heap p)) [
  | inl e ↦ subst (Tracked ps) (sym (close_at-none p rs e)) h
  | inr (sl, e) ↦ subst (Tracked ps) (sym (close_at-some p rs sl e)) (
      update-Tracked ps p sl (close sl).0 rs e (close-key sl)
        (λ o. let c : (close sl).0.closed ≡ true = close-closed sl in absurd cc) h)
]

-- An open listener behind close_at p was open before, and is not p.
close_at-open :
    (p q : ℕ) (rs : RemoteServer) (x : SharedListener)
    → get_elem? (close_at p rs).heap q ≡ some x
    → x.closed ≡ false
    → (get_elem? rs.heap q ≡ some x) × (p ≢ q)
close_at-open p q rs x g o = elim (Option-cases (get_elem? rs.heap p)) [
  | inl e ↦
      let g' : get_elem? rs.heap q ≡ some x =
        ap (λ (r : RemoteServer). get_elem? r.heap q) (sym (close_at-none p rs e)) ∙ g in
      (g', λ u. let r : none ≡ some x = sym e ∙ ap (get_elem? rs.heap) u ∙ g' in cc)
  | inr (sl, e) ↦
      let g' : get_elem? (update p (close sl).0 rs.heap) q ≡ some x =
        ap (λ (r : RemoteServer). get_elem? r.heap q) (sym (close_at-some p rs sl e)) ∙ g in
      let c : (close sl).0.closed ≡ true = close-closed sl in
      let n : p ≢ q = λ u.
        let i : (close sl).0 ≡ x = some-injective (close sl).0 x (
          sym (get_elem?-update p (close sl).0 sl rs.heap e)
          ∙ ap (get_elem? (update p (close sl).0 rs.heap)) u
          ∙ g') in
        let d : (close sl).0.closed ≡ false = ap (λ (y : SharedListener). y.closed) i ∙ o in cc in
      elim (get_elem?-update_cases p q (close sl).0 x rs.heap g') [
        | inl (u, v) ↦ absurd (n (sym u))
        | inr g'' ↦ (g'', n)
      ]
]

-- The turn of Close that closes the next of its listeners.
pub close_listed-Tracked :
    (ps qs : List ℕ) (p : ℕ) (rs : RemoteServer)
    → Tracked (ps ++ (p ∷ qs)) rs
    → Tracked (ps ++ qs) (close_at p rs)
close_listed-Tracked ps qs p rs h q x g o =
    let (l, f) = close_at-Tracked (ps ++ (p ∷ qs)) p rs h q x g o in
    (live_then (close_at-open p q rs x g o).1 l, f)
  where
    others_listed : p ≢ q → Memᴰ q (p ∷ qs) → Memᴰ q qs
    others_listed n m = elim (Memᴰ.cases_cons m) [ inl e ↦ absurd (n (sym e)) | inr k ↦ k ]

    kept : p ≢ q → Memᴰ q (ps ++ (p ∷ qs)) → Memᴰ q (ps ++ qs)
    kept n m = elim (Memᴰ.append_cases ps m) [
      | inl k ↦ Memᴰ.append_left qs k
      | inr k ↦ Memᴰ.append_right ps (others_listed n k)
    ]

    live_then : p ≢ q → Live (ps ++ (p ∷ qs)) (close_at p rs) q → Live (ps ++ qs) (close_at p rs) q
    live_then n (inl c) = inl c
    live_then n (inr m) = inr (kept n m)

find-listed :
    (k : ListenerKey) (m : List (ListenerKey × ℕ)) (p : ℕ) → find k m ≡ some p → Memᴰ p (listed m)
unfolding find listed
find-listed k [] p e = absurd cc
find-listed k ((j, q) ∷ m) p e = by_key (key_eq j k) (λ u. find-listed k m p u) e
  where
    by_key :
        (b : Bool)
        → (find k m ≡ some p → Memᴰ p (listed m))
        → (if b then some q else find k m) ≡ some p
        → Memᴰ p (q ∷ listed m)
    by_key true h u = Memᴰ.head (sym (some-injective q p u))
    by_key false h u = Memᴰ.tail (h u)

Live-append : (ps qs : List ℕ) (rs : RemoteServer) (p : ℕ) → Live ps rs p → Live (ps ++ qs) rs p
Live-append ps qs rs p (inl c) = inl c
Live-append ps qs rs p (inr m) = inr (Memᴰ.append_left qs m)

-- The part of Close under rs.mu: what is open then is what it closes.
pub close_first-Tracked :
    (ps : List ℕ) (rs : RemoteServer)
    → Tracked ps rs
    → Tracked (ps ++ (close_first rs).2) (close_first rs).0
unfolding close_first
close_first-Tracked ps rs h =
    if_split (λ (r : RemoteServer × List ℕ × List ℕ). Tracked (ps ++ r.2) r.0) rs.closed
      (λ c q x g o. (Live-append ps [] rs q (h q x g o).0, (h q x g o).1))
      (λ c q x g o. (
        inr (Memᴰ.append_right ps (find-listed x.key rs.listeners q (h q x g o).1)),
        (h q x g o).1,
      ))

-- The deletion of the table's entry, once the listener is closed.
pub drop_entry-Tracked :
    (ps : List ℕ) (key : ListenerKey) (p : ℕ) (rs : RemoteServer)
    → ((x : SharedListener) → get_elem? rs.heap p ≡ some x → x.closed ≡ true)
    → Tracked ps rs
    → Tracked ps (drop_entry key p rs)
unfolding drop_entry
drop_entry-Tracked ps key p rs d h = by_entry (find key rs.listeners) refl
  where
    deleted :
        find key rs.listeners ≡ some p
        → Tracked ps (record rs { listeners = delete key rs.listeners })
    deleted f q x g o = elim (Bool-cases (key_eq key x.key)) [
      | inr e ↦ ((h q x g o).0, find-delete_other key x.key rs.listeners e ∙ (h q x g o).1)
      | inl e ↦
          let f' : find key rs.listeners ≡ some q =
            ap (λ (k : ListenerKey). find k rs.listeners) (key_eq_sound key x.key e)
            ∙ (h q x g o).1 in
          let u : p ≡ q = some-injective p q (sym f ∙ f') in
          let c : x.closed ≡ true = d x (ap (get_elem? rs.heap) u ∙ g) in absurd cc
    ]

    by_entry :
        (f : Option ℕ)
        → find key rs.listeners ≡ f
        → Tracked ps (elim f [
          | none ↦ rs
          | some q ↦ if q == p then record rs { listeners = delete key rs.listeners } else rs
        ])
    by_entry none e = h
    by_entry (some q) e =
        if_split (Tracked ps) (q == p) (λ u. deleted (e ∙ ap (λ (n : ℕ). some n) (equal_nat q p u)))
          (λ u. h)
