-- ===== src/Relay/RemoteServer/Shutdown/Tracked.antt =====
-- relay/remoteserver.go: an open listener is the one that the server's table has for its address,
-- kept by attachSharedListener and both parts of detachSharedListener.
use tunnelmanager.Prelude.{
  ◌∙◌, ◌≡◌, ◌⊎◌, Bool, Bool-cases, Bytes, List, Option, Option-cases, Result, ap, false, get_elem?,
  if_split, inl, inr, none, refl, some, some-injective, subst, sym, true, ℕ,
}
use tunnelmanager.Relay.Listener.{
  lookup, attach, detach, remove_order, ListenerKey, SharedListener, open_listener, key_eq,
  index_of,
}
use tunnelmanager.Relay.RemoteServer.{
  delete, update, RemoteServer, find, AttachError, bind_new, join, attach_shared_listener,
  detach_first,
}
use tunnelmanager.Relay.RemoteServer.Shutdown.Tables.{
  key_eq_sound, key_eq_refl, find-delete_other, get_elem?-update_cases, get_elem?-append_cases,
}
use mathlib.Core.List.{Memᴰ}

-- The server is not closed, or Close has still to close listener p, which is one of `ps`.
abbrev pub Live : List ℕ → RemoteServer → ℕ → Type 0
Live ps rs p = (rs.closed ≡ false) ⊎ Memᴰ p ps

-- Every listener that is not closed is found in the table, and Close has not passed it.
abbrev pub Tracked : List ℕ → RemoteServer → Type 0
Tracked ps rs =
    (p : ℕ) (sl : SharedListener)
    → get_elem? rs.heap p ≡ some sl
    → sl.closed ≡ false
    → Live ps rs p × (find sl.key rs.listeners ≡ some p)

-- The same, and none of these listeners has the given address.
abbrev Others : ListenerKey → RemoteServer → Type 0
Others key rs =
    (p : ℕ) (sl : SharedListener)
    → get_elem? rs.heap p ≡ some sl
    → sl.closed ≡ false
    → (key_eq key sl.key ≡ false) × (find sl.key rs.listeners ≡ some p)

bind_new-Tracked :
    (ps : List ℕ) (key : ListenerKey) (target : Bytes) (who : ℕ) (bound : Bool) (rs : RemoteServer)
    → rs.closed ≡ false
    → Others key rs
    → Tracked ps (bind_new key target who bound rs).1
unfolding bind_new find delete open_listener
bind_new-Tracked ps key target who false rs c h p sl g o = (inl c, (h p sl g o).1)
bind_new-Tracked ps key target who true rs c h p sl g o =
    elim (get_elem?-append_cases p (open_listener key who target) sl rs.heap g) [
      | inl (u, v) ↦ (inl c, rw (v, u, key_eq_refl key) refl)
      | inr g' ↦
          let (n, f) = h p sl g' o in (inl c, rw (n, find-delete_other key sl.key rs.listeners n) f)
    ]

pub update-Tracked :
    (ps : List ℕ) (p : ℕ) (old new : SharedListener) (rs : RemoteServer)
    → get_elem? rs.heap p ≡ some old
    → new.key ≡ old.key
    → (new.closed ≡ false → old.closed ≡ false)
    → Tracked ps rs
    → Tracked ps (record rs { heap = update p new rs.heap })
update-Tracked ps p old new rs e k c h q sl g o =
    elim (get_elem?-update_cases p q new sl rs.heap g) [
      | inl (u, v) ↦
          let a : Live ps rs p × (find old.key rs.listeners ≡ some p) =
            h p old e (c (ap (λ (x : SharedListener). x.closed) (sym v) ∙ o)) in
          (subst (Live ps rs) (sym u) a.0, rw (v, u, k) a.1)
      | inr g' ↦ h q sl g' o
    ]

-- An open listener whose address has the table's entry p is listener p.
others :
    (ps : List ℕ) (key : ListenerKey) (rs : RemoteServer)
    → Tracked ps rs
    → ((p : ℕ) (sl : SharedListener)
        → find key rs.listeners ≡ some p
        → get_elem? rs.heap p ≡ some sl
        → sl.closed ≡ true)
    → Others key rs
others ps key rs h n p sl g o = elim (Bool-cases (key_eq key sl.key)) [
  | inr e ↦ (e, (h p sl g o).1)
  | inl e ↦
      let f : find key rs.listeners ≡ some p =
        ap (λ (k : ListenerKey). find k rs.listeners) (key_eq_sound key sl.key e)
        ∙ (h p sl g o).1 in
      let c : sl.closed ≡ true = n p sl f g in absurd cc
]

attach-key : (who : ℕ) (target : Bytes) (sl : SharedListener) → (attach who target sl).key ≡ sl.key
unfolding attach
attach-key who target sl = elim (Option-cases (lookup who sl.conns)) [
  | inl e ↦ rw (e, attach) refl
  | inr (t, e) ↦ rw (e, attach) refl
]

attach-closed :
    (who : ℕ) (target : Bytes) (sl : SharedListener) → (attach who target sl).closed ≡ sl.closed
unfolding attach
attach-closed who target sl = elim (Option-cases (lookup who sl.conns)) [
  | inl e ↦ rw (e, attach) refl
  | inr (t, e) ↦ rw (e, attach) refl
]

module _ (ps : List ℕ) (key : ListenerKey) (target : Bytes) (who : ℕ) (bound : Bool)
    (rs : RemoteServer) (h : Tracked ps rs) where
  abbrev ResultTracked : Result AttachError ℕ × RemoteServer → Type 0
  ResultTracked r = Tracked ps r.1

  same_listener :
      (p q : ℕ) (sl x : SharedListener)
      → find key rs.listeners ≡ some p
      → find key rs.listeners ≡ some q
      → get_elem? rs.heap p ≡ some sl
      → get_elem? rs.heap q ≡ some x
      → sl ≡ x
  same_listener p q sl x f f' g g' =
      some-injective sl x (sym g ∙ ap (get_elem? rs.heap) (some-injective p q (sym f ∙ f')) ∙ g')

  join-Tracked :
      (p : ℕ) (sl : SharedListener)
      → rs.closed ≡ false
      → find key rs.listeners ≡ some p
      → get_elem? rs.heap p ≡ some sl
      → ResultTracked (join key target who bound p sl rs)
  unfolding join
  join-Tracked p sl c f g =
      if_split ResultTracked sl.closed
        (λ d.
          let o : Others key rs = others ps key rs h (λ q x f' g'.
            ap (λ (y : SharedListener). y.closed) (sym (same_listener p q sl x f f' g g')) ∙ d) in
          bind_new-Tracked ps key target who bound
            (record rs { listeners = delete key rs.listeners }) c
            (λ q x g' o'.
              let (n, e) = o q x g' o' in (n, find-delete_other key x.key rs.listeners n ∙ e)))
        (λ d.
          update-Tracked ps p sl (attach who target sl) rs g (attach-key who target sl)
            (λ e. sym (attach-closed who target sl) ∙ e) h)

  pub attach_shared_listener-Tracked : Tracked ps (attach_shared_listener key target who bound rs).1
  unfolding attach_shared_listener
  attach_shared_listener-Tracked =
      if_split ResultTracked rs.closed (λ c. h) (λ c. by_entry c (find key rs.listeners) refl)
    where
      by_listener :
          (p : ℕ)
          → rs.closed ≡ false
          → find key rs.listeners ≡ some p
          → (l : Option SharedListener) → get_elem? rs.heap p ≡ l
          → ResultTracked (elim l [
            | none ↦ bind_new key target who bound rs
            | some sl ↦ join key target who bound p sl rs
          ])
      by_listener p c f none g = bind_new-Tracked ps key target who bound rs c (
          others ps key rs h (λ q x f' g'. absurd (
            let e : p ≡ q = some-injective p q (sym f ∙ f') in
            let r : none ≡ some x = sym g ∙ ap (get_elem? rs.heap) e ∙ g' in cc)))
      by_listener p c f (some sl) g = join-Tracked p sl c f g

      by_entry :
          rs.closed ≡ false
          → (f : Option ℕ) → find key rs.listeners ≡ f
          → ResultTracked (elim f [
            | none ↦ bind_new key target who bound rs
            | some p ↦ elim (get_elem? rs.heap p) [
              | none ↦ bind_new key target who bound rs
              | some sl ↦ join key target who bound p sl rs
            ]
          ])
      by_entry c none e =
          bind_new-Tracked ps key target who bound rs c
            (others ps key rs h (λ q x f' g'. absurd cc))
      by_entry c (some p) e = by_listener p c e (get_elem? rs.heap p) refl

remove_order-key : (who : ℕ) (sl : SharedListener) → (remove_order who sl).key ≡ sl.key
unfolding remove_order
remove_order-key who sl = elim (Option-cases (index_of who sl.order)) [
  | inl e ↦ rw (e, remove_order) refl
  | inr (i, e) ↦ rw (e, remove_order) refl
]

remove_order-closed : (who : ℕ) (sl : SharedListener) → (remove_order who sl).closed ≡ sl.closed
unfolding remove_order
remove_order-closed who sl = elim (Option-cases (index_of who sl.order)) [
  | inl e ↦ rw (e, remove_order) refl
  | inr (i, e) ↦ rw (e, remove_order) refl
]

detach-kept :
    (who : ℕ) (sl : SharedListener)
    → ((detach who sl).0.key ≡ sl.key) × ((detach who sl).0.closed ≡ sl.closed)
unfolding detach
detach-kept who sl = elim (Option-cases (lookup who sl.conns)) [
  | inl e ↦ rw (e, detach) (refl, refl)
  | inr (t, e) ↦ rw (e, detach) (remove_order-key who _, remove_order-closed who _)
]

pub detach_first-Tracked :
    (ps : List ℕ) (p who : ℕ) (rs : RemoteServer)
    → Tracked ps rs
    → Tracked ps (detach_first p who rs).0
unfolding detach_first
detach_first-Tracked ps p who rs h = by_listener (get_elem? rs.heap p) refl
  where
    by_listener :
        (l : Option SharedListener)
        → get_elem? rs.heap p ≡ l
        → Tracked ps
            (elim l as (λ _. RemoteServer × Bool) [
              | none ↦ (rs, false)
              | some sl ↦
                  let (sl', should_close) = detach who sl in
                  (record rs { heap = update p sl' rs.heap }, should_close)
            ]).0
    by_listener none g = h
    by_listener (some sl) g =
        let (k, c) = detach-kept who sl in
        update-Tracked ps p sl (detach who sl).0 rs g k (λ e. sym c ∙ e) h
