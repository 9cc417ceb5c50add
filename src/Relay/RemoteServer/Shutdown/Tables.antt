-- ===== src/Relay/RemoteServer/Shutdown/Tables.antt =====
-- relay/remoteserver.go: lookups in the server's table and in the store of its listeners after a
-- change.
use tunnelmanager.Prelude.{
  ◌&&◌, ◌++◌, ◌==◌, ◌∙◌, ◌∷◌, ◌≡◌, ◌⊎◌, Bool, Bool-cases, Bytes, List, [], ap, arith, eq_of_text_eq,
  false, get_elem?, inl, inr, length, refl, some, some-injective, suc, sym, text_eq, text_eq_refl,
  true, zero, ℕ,
}
use tunnelmanager.Relay.RemoteServer.{delete, update, find}
use tunnelmanager.Relay.Listener.{ListenerKey, SharedListener, key_eq}

and_true : (a b : Bool) → (a && b) ≡ true → (a ≡ true) × (b ≡ true)
and_true true b e = (refl, e)
and_true false b e = absurd cc

pub equal_nat : (m n : ℕ) → (m == n) ≡ true → m ≡ n
equal_nat m n e = ground arith

pub key_eq_sound : (j k : ListenerKey) → key_eq j k ≡ true → j ≡ k
key_eq_sound j k e =
    let b : ((j.port == k.port) ≡ true) × (text_eq j.bind k.bind ≡ true) = and_true _ _ e in
    let p : j.port ≡ k.port = equal_nat j.port k.port b.0 in
    let q : j.bind ≡ k.bind = eq_of_text_eq j.bind k.bind b.1 in
    let first : j ≡ record { port = k.port; bind = j.bind } =
      ap (λ (n : ℕ). record { port = n; bind = j.bind }) p in
    let second : record { port = k.port; bind = j.bind } ≡ k =
      ap (λ (s : Bytes). record { port = k.port; bind = s }) q in
    first ∙ second

pub key_eq_refl : (k : ListenerKey) → key_eq k k ≡ true
key_eq_refl k = ground (arith, text_eq_refl k.bind)

pub find-delete_other :
    (j k : ListenerKey) (m : List (ListenerKey × ℕ))
    → key_eq j k ≡ false
    → find k (delete j m) ≡ find k m
unfolding find delete
find-delete_other j k [] e = refl
find-delete_other j k ((i, p) ∷ m) e = elim (Bool-cases (key_eq i j)) [
  | inl a ↦
      let b : key_eq i k ≡ false = ap (λ (x : ListenerKey). key_eq x k) (key_eq_sound i j a) ∙ e in
      rw (a, b) (find-delete_other j k m e)
  | inr a ↦ rw (a, find-delete_other j k m e) refl
]

pub get_elem?-update_cases :
    (p q : ℕ) (sl x : SharedListener) (heap : List SharedListener)
    → get_elem? (update p sl heap) q ≡ some x
    → ((q ≡ p) × (x ≡ sl)) ⊎ (get_elem? heap q ≡ some x)
unfolding update
get_elem?-update_cases p q sl x [] e = inr e
get_elem?-update_cases zero zero sl x (y ∷ heap) e = inl (refl, sym (some-injective sl x e))
get_elem?-update_cases zero (suc q) sl x (y ∷ heap) e = inr e
get_elem?-update_cases (suc p) zero sl x (y ∷ heap) e = inr e
get_elem?-update_cases (suc p) (suc q) sl x (y ∷ heap) e =
    elim (get_elem?-update_cases p q sl x heap e) [ inl (u, v) ↦ inl (ap suc u, v) | inr u ↦ inr u ]

pub get_elem?-append_cases :
    (q : ℕ) (sl x : SharedListener) (heap : List SharedListener)
    → get_elem? (heap ++ (sl ∷ [])) q ≡ some x
    → ((q ≡ length heap) × (x ≡ sl)) ⊎ (get_elem? heap q ≡ some x)
get_elem?-append_cases zero sl x [] e = inl (refl, sym (some-injective sl x e))
get_elem?-append_cases (suc q) sl x [] e = inr e
get_elem?-append_cases zero sl x (y ∷ heap) e = inr e
get_elem?-append_cases (suc q) sl x (y ∷ heap) e = elim (get_elem?-append_cases q sl x heap e) [
  | inl (u, v) ↦ inl (ap suc u, v)
  | inr u ↦ inr u
]

pub get_elem?-update :
    (p : ℕ) (sl x : SharedListener) (heap : List SharedListener)
    → get_elem? heap p ≡ some x
    → get_elem? (update p sl heap) p ≡ some sl
unfolding update
get_elem?-update p sl x [] e = cc
get_elem?-update zero sl x (y ∷ heap) e = refl
get_elem?-update (suc p) sl x (y ∷ heap) e = get_elem?-update p sl x heap e
