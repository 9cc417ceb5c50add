-- ===== src/Relay/Listener.antt =====
-- relay/remoteserver.go: the public listener that several control connections share, and the
-- server's table of such listeners. Control connections are numbers, as their pointers are.
pub mod Invariant
pub mod RoundRobin
pub mod Sole
mod Runs
use tunnelmanager.Prelude.{
  ◌%◌, ◌&&◌, ◌++◌, ◌+◌, ◌-◌, ◌==◌, ◌∷◌, Bool, Bytes, List, Option, [], codes, false, get_or,
  if◌then◌else◌, leb, length, ltb, none, some, suc, text_eq, true, zero, ℕ,
}

pub record ListenerKey : Type 0 where
  pub port : ℕ
  pub bind : Bytes

-- `key` is port with bindAddr. conns maps a control connection to its target; order is the round-robin order.
pub record SharedListener : Type 0 where
  pub key : ListenerKey
  pub conns : List (ℕ × Bytes)
  pub order : List ℕ
  pub next : ℕ
  pub closed : Bool

-- `map[*CtrlConn]string`.
pub lookup : ℕ → List (ℕ × Bytes) → Option Bytes
lookup k [] = none
lookup k ((j, t) ∷ m) = if j == k then some t else lookup k m

pub without : ℕ → List (ℕ × Bytes) → List (ℕ × Bytes)
without k [] = []
without k ((j, t) ∷ m) = let rest = without k m in if j == k then rest else (j, t) ∷ rest

pub put : ℕ → Bytes → List (ℕ × Bytes) → List (ℕ × Bytes)
unfolding without
put k t m = (k, t) ∷ without k m

unfoldable pub open_listener : ListenerKey → ℕ → Bytes → SharedListener
open_listener key cc target = record {
  key = key;
  conns = (cc, target) ∷ [];
  order = cc ∷ [];
  next = 0;
  closed = false;
}

-- The branch of attachSharedListener for a listener that is there and not closed.
unfoldable pub attach : ℕ → Bytes → SharedListener → SharedListener
unfolding lookup put
attach cc target sl = elim (lookup cc sl.conns) [
  | none ↦ record sl { conns = put cc target sl.conns; order = sl.order ++ (cc ∷ []) }
  | some _ ↦ record sl { conns = put cc target sl.conns }
]

-- `for i, c := range sl.order { if c == cc { idx = i; break } }`
pub index_of : ℕ → List ℕ → Option ℕ
index_of cc [] = none
index_of cc (c ∷ cs) =
    let rest = index_of cc cs in
    if c == cc then some 0 else elim rest [ none ↦ none | some i ↦ some (suc i) ]

pub remove_at : ℕ → List ℕ → List ℕ
remove_at i [] = []
remove_at zero (c ∷ cs) = cs
remove_at (suc i) (c ∷ cs) = c ∷ remove_at i cs

-- `if sl.next > idx { sl.next-- }`, then `if sl.next >= len(sl.order) { sl.next = 0 }`.
adjust_next : ℕ → ℕ → ℕ → ℕ
adjust_next idx size next =
    let moved = if ltb idx next then next - 1 else next in if leb size moved then 0 else moved

unfoldable pub remove_order : ℕ → SharedListener → SharedListener
unfolding index_of remove_at adjust_next
remove_order cc sl = elim (index_of cc sl.order) [
  | none ↦ sl
  | some idx ↦
      let order = remove_at idx sl.order in
      record sl { order = order; next = adjust_next idx (length order) sl.next }
]

-- detachSharedListener under sl.mu, with shouldClose.
unfoldable pub detach : ℕ → SharedListener → SharedListener × Bool
unfolding lookup without remove_order
detach cc sl = elim (lookup cc sl.conns) [
  | none ↦ (sl, false)
  | some _ ↦
      let sl' = remove_order cc (record sl { conns = without cc sl.conns }) in
      (sl', length sl'.order == 0)
]

-- `sl.conns[cc]`, the empty string on a missing key.
pub target_of : List (ℕ × Bytes) → ℕ → Bytes
unfolding lookup
target_of m k = elim (lookup k m) [ none ↦ [] | some t ↦ t ]

-- dispatch under sl.mu: which control connection and target take the new connection.
unfoldable pub dispatch : SharedListener → Option (ℕ × Bytes) × SharedListener
unfolding target_of
dispatch sl =
    if length sl.order == 0
    then (none, sl)
    else let chosen = get_or sl.order (sl.next % length sl.order) 0 in
      (
        some (chosen, target_of sl.conns chosen),
        record sl { next = (sl.next + 1) % length sl.order },
      )

-- Close; the result says whether the net.Listener was closed by this call.
unfoldable pub close : SharedListener → SharedListener × Bool
close sl = if sl.closed then (sl, false) else (record sl { closed = true }, true)

unfoldable pub default_bind_addr : Bytes → Bytes
default_bind_addr addr = if text_eq addr [] then codes "0.0.0.0" else addr

abbrev pub key_eq : ListenerKey → ListenerKey → Bool
key_eq j k = j.port == k.port && text_eq j.bind k.bind
