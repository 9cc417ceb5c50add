-- ===== src/Relay/Listener/Invariant.antt =====
-- The round-robin order of a shared listener (relay/remoteserver.go) against its connections.
use tunnelmanager.Prelude.{
  ◌++◌, ◌+◌, ◌<◌, ◌==◌, ◌||◌, ◌∙◌, ◌∷◌, ◌≡◌, ◌≢◌, ◌⊎◌, All, Bool, Bytes, List, Option-cases, [],
  arith, false, if◌then◌else◌, inl, inr, length, length-append, none, refl, some, suc, true, zero,
  ℕ,
}
use tunnelmanager.Relay.Listener.{
  lookup, SharedListener, without, put, open_listener, attach, index_of, remove_at, remove_order,
  adjust_next, ListenerKey,
}

abbrev pub Fresh : ℕ → List ℕ → Type 0
Fresh k = All (λ c. c ≢ k)

-- Listed once each.
abbrev pub Distinct : List ℕ → Type 0
Distinct [] = Unit
Distinct (c ∷ cs) = Fresh c cs × Distinct cs

abbrev pub has_key : ℕ → List (ℕ × Bytes) → Bool
has_key k m = elim (lookup k m) [ none ↦ false | some _ ↦ true ]

unfoldable pub member : ℕ → List ℕ → Bool
member k [] = false
member k (c ∷ cs) = c == k || member k cs

-- The order lists exactly the registered connections, each once, and next points into it.
pub record Inv (sl : SharedListener) : Type 0 where
  pub distinct : Distinct sl.order
  pub same_conns : (k : ℕ) → member k sl.order ≡ has_key k sl.conns
  pub next_valid : (sl.next < length sl.order) ⊎ ((sl.next ≡ 0) × (sl.order ≡ []))

pub lookup-without :
    (k j : ℕ) (m : List (ℕ × Bytes))
    → lookup j (without k m) ≡ (if k == j then none else lookup j m)
unfolding lookup without
lookup-without k j [] = ground arith
lookup-without k j ((i, t) ∷ m) = ground (arith, lookup-without k j m)

pub lookup-put :
    (k j : ℕ) (t : Bytes) (m : List (ℕ × Bytes))
    → lookup j (put k t m) ≡ (if k == j then some t else lookup j m)
unfolding lookup put
lookup-put k j t m = ground (arith, lookup-without k j m)

Fresh-append : (k c : ℕ) (cs : List ℕ) → Fresh k cs → c ≢ k → Fresh k (cs ++ (c ∷ []))
Fresh-append k c [] f n = (n, tt)
Fresh-append k c (x ∷ cs) f n = (f.0, Fresh-append k c cs f.1 n)

Fresh-of_member : (k : ℕ) (cs : List ℕ) → member k cs ≡ false → Fresh k cs
unfolding member
Fresh-of_member k [] h = tt
Fresh-of_member k (c ∷ cs) h = (ground arith, Fresh-of_member k cs (ground arith))

member_of_Fresh : (k : ℕ) (cs : List ℕ) → Fresh k cs → member k cs ≡ false
unfolding member
member_of_Fresh k [] h = refl
member_of_Fresh k (c ∷ cs) h = ground (arith, member_of_Fresh k cs h.1)

pub Distinct-append :
    (k : ℕ) (cs : List ℕ) → Distinct cs → member k cs ≡ false → Distinct (cs ++ (k ∷ []))
unfolding member
Distinct-append k [] d h = (tt, tt)
Distinct-append k (c ∷ cs) d h =
    (Fresh-append c k cs d.0 (ground arith), Distinct-append k cs d.1 (ground arith))

pub member-append : (k c : ℕ) (cs : List ℕ) → member k (cs ++ (c ∷ [])) ≡ (member k cs || c == k)
unfolding member
member-append k c [] = ground arith
member-append k c (x ∷ cs) = ground (arith, member-append k c cs)

pub open_listener-Inv : (key : ListenerKey) (who : ℕ) (t : Bytes) → Inv (open_listener key who t)
unfolding open_listener member lookup
open_listener-Inv key who t = record {
  distinct = (tt, tt);
  same_conns = λ k. ground arith;
  next_valid = inl (omega arith);
}

-- A control connection that attaches to a listener in shape, for the first time or again, leaves
-- it with every registered connection in the order once and a valid next index.
pub attach-Inv : (who : ℕ) (t : Bytes) (sl : SharedListener) → Inv sl → Inv (attach who t sl)
unfolding attach
attach-Inv who t sl v = elim (Option-cases (lookup who sl.conns)) [
  | inl e ↦
      rw (e, attach)
        (record {
          distinct = Distinct-append who sl.order v.distinct (v.same_conns who ∙ rw (e, has_key));
          same_conns = λ k.
              ground
                (arith, v.same_conns k, member-append k who sl.order, lookup-put who k t sl.conns);
          next_valid = ground (arith, length-append sl.order (who ∷ []));
        })
  | inr (t', e) ↦
      rw (e, attach)
        (record {
          distinct = v.distinct;
          same_conns = λ k. ground (arith, v.same_conns k, lookup-put who k t sl.conns);
          next_valid = v.next_valid;
        })
]

index_of-none : (who : ℕ) (cs : List ℕ) → index_of who cs ≡ none → member who cs ≡ false
unfolding index_of member
index_of-none who [] h = refl
index_of-none who (c ∷ cs) h = ground (arith, index_of-none who cs)

-- Taking out the position that index_of found takes out the connection, and nothing else.
remove_at_index :
    (who i : ℕ) (cs : List ℕ)
    → index_of who cs ≡ some i
    → Distinct cs
    → (i < length cs)
      × (length (remove_at i cs) + 1 ≡ length cs)
      × Distinct (remove_at i cs)
      × ((k : ℕ) → member k (remove_at i cs) ≡ (if who == k then false else member k cs))
      × ((k : ℕ) → Fresh k cs → Fresh k (remove_at i cs))
unfolding index_of remove_at member
remove_at_index who i [] h d = cc
remove_at_index who zero (c ∷ cs) h d =
    let hit : c ≡ who = ground arith in
    (omega arith, omega arith, d.1, λ k. ground (arith, member_of_Fresh c cs d.0), λ k f. f.1)
remove_at_index who (suc i) (c ∷ cs) h d =
    let miss : c ≢ who = ground arith in
    let found : index_of who cs ≡ some i = ground arith in
    let (lt, len, distinct, mem, fresh) = remove_at_index who i cs found d.1 in
    (
      omega arith,
      omega arith,
      (fresh c d.0, distinct),
      λ k. ground (arith, mem k),
      λ k f. (f.0, fresh k f.1),
    )

pub empty_of_length : (cs : List ℕ) → length cs ≡ 0 → cs ≡ []
empty_of_length [] h = refl
empty_of_length (c ∷ cs) h = absurd (omega arith)

-- What is left when a registered connection is taken out of the order.
pub remove_order-Inv :
    (who : ℕ) (sl : SharedListener)
    → Inv sl
    → (t : Bytes) → lookup who sl.conns ≡ some t
    → Inv (remove_order who (record sl { conns = without who sl.conns }))
unfolding remove_order adjust_next
remove_order-Inv who sl v t e = elim (Option-cases (index_of who sl.order)) [
  | inl i ↦ absurd (ground (arith, index_of-none who sl.order i, v.same_conns who))
  | inr (i, f) ↦
      let (lt, len, distinct, mem, fresh) = remove_at_index who i sl.order f v.distinct in
      rw (f, remove_order)
        (record {
          distinct = distinct;
          same_conns = λ k. ground (arith, mem k, v.same_conns k, lookup-without who k sl.conns);
          next_valid = ground (arith, empty_of_length (remove_at i sl.order));
        })
]
