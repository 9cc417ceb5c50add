-- ===== src/Relay/Listener/Sole.antt =====
-- The shared listener of relay/remoteserver.go with one control connection, and with none.
use tunnelmanager.Prelude.{◌∷◌, ◌≡◌, ==_refl, Bytes, [], arith, false, refl, true, ℕ}
use tunnelmanager.Relay.Listener.{
  lookup, close, ListenerKey, SharedListener, without, put, attach, index_of, remove_at,
  adjust_next, remove_order, detach,
}

-- A listener that serves one connection only.
abbrev pub sole : ListenerKey → ℕ → Bytes → SharedListener
sole key a target = record {
  key = key;
  conns = (a, target) ∷ [];
  order = a ∷ [];
  next = 0;
  closed = false;
}

abbrev pub empty : ListenerKey → SharedListener
empty key = record { key = key; conns = []; order = []; next = 0; closed = false }

pub detach-sole :
    (key : ListenerKey) (a : ℕ) (target : Bytes) → detach a (sole key a target) ≡ (empty key, true)
unfolding detach remove_order index_of remove_at adjust_next lookup without
detach-sole key a target = ground (arith, ==_refl a)

pub attach-empty :
    (key : ListenerKey) (b : ℕ) (target : Bytes) → attach b target (empty key) ≡ sole key b target
unfolding attach lookup put without
attach-empty key b target = refl

pub close-sole :
    (key : ListenerKey) (b : ℕ) (target : Bytes)
    → (close (sole key b target)).0 ≡ record (sole key b target) { closed = true }
unfolding close
close-sole key b target = refl
