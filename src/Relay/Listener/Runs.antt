-- ===== src/Relay/Listener/Runs.antt =====
-- A shared listener of relay/remoteserver.go with three control connections.
use tunnelmanager.Prelude.{◌∷◌, ◌≡◌, [], arith, false, inl}
use tunnelmanager.Relay.Listener.{lookup, ListenerKey, SharedListener, target_of}
use tunnelmanager.Relay.Listener.Invariant.{Inv, member}
use tunnelmanager.Relay.Listener.RoundRobin.{picks, picks_round}

abbrev key : ListenerKey
key = record { port = 80; bind = [] }

-- The connections 1, 2 and 3, and 2 is next.
abbrev three : SharedListener
three = record {
  key = key;
  conns = (3, 99 ∷ []) ∷ (2, 98 ∷ []) ∷ (1, 97 ∷ []) ∷ [];
  order = 1 ∷ 2 ∷ 3 ∷ [];
  next = 1;
  closed = false;
}

three-Inv : Inv three
unfolding member lookup
three-Inv = record {
  distinct = ground arith;
  same_conns = λ k. ground arith;
  next_valid = inl (omega arith);
}

picks_round_example : picks 3 three ≡ ((2, 98 ∷ []) ∷ (3, 99 ∷ []) ∷ (1, 97 ∷ []) ∷ [], three)
unfolding target_of lookup
picks_round_example = picks_round three three-Inv (λ e. ground arith)
