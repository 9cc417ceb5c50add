-- ===== src/Relay/Copy/Ends.antt =====
-- relay/relay.go: Relay returns, and says what it has copied.
use tunnelmanager.Prelude.{
  ◌++◌, ◌-◌, ◌<◌, ◌∙◌, ◌∷◌, ◌≡◌, ◌≤◌, Bytes, List, Option, [], ap, append-nil, arith, false, length,
  none, refl, some, suc, sym, true, ℕ,
}
use tunnelmanager.Relay.Copy.Complete.{failed, Copied}
use tunnelmanager.Relay.Copy.Both.{Inv, sends-Inv, receives-Inv, relay_turns-Inv, relay-Inv}
use tunnelmanager.Relay.Copy.{
  End, CopyError, Copying, going, finished, copy_turn, Relaying, relay, RelayTurn, sends, receives,
  relay_turn, relay_turns, Stats, relay_stats,
}
use tunnelmanager.Relay.Copy.Turn.{turn_on-Framed, turns_left, turn_on-shorter}

-- How many turns of a schedule each goroutine has.
abbrev pub sends_in : List RelayTurn → ℕ
sends_in [] = 0
sends_in (sends n ∷ ts) = suc (sends_in ts)
sends_in (receives n ∷ ts) = sends_in ts

abbrev pub receives_in : List RelayTurn → ℕ
receives_in [] = 0
receives_in (sends n ∷ ts) = receives_in ts
receives_in (receives n ∷ ts) = suc (receives_in ts)

abbrev left_to_send : Relaying → ℕ
left_to_send r = turns_left r.sending r.a.conn.input

abbrev left_to_receive : Relaying → ℕ
left_to_receive r = turns_left r.receiving r.b.conn.input

module _ (n : ℕ) (a b : End) where
  sends-left :
      (c d : Copying)
      → b.half_closes ≡ true
      → let r : Relaying = record { a = a; b = b; sending = c; receiving = d } in
        (left_to_send (relay_turn (sends n) r) ≤ left_to_send r - 1)
        × (left_to_receive (relay_turn (sends n) r) ≡ left_to_receive r)
  unfolding relay_turn copy_turn
  sends-left (finished k e) d h = (omega arith, refl)
  sends-left (going k) d h =
      let fewer = turn_on-shorter a.conn.input n k a b in
      let f = turn_on-Framed a.conn.input n k a b h in (omega arith, ap (turns_left d) f.dst_input)

  receives-left :
      (c d : Copying)
      → a.half_closes ≡ true
      → let r : Relaying = record { a = a; b = b; sending = c; receiving = d } in
        (left_to_receive (relay_turn (receives n) r) ≤ left_to_receive r - 1)
        × (left_to_send (relay_turn (receives n) r) ≡ left_to_send r)
  unfolding relay_turn copy_turn
  receives-left c (finished k e) h = (omega arith, refl)
  receives-left c (going k) h =
      let fewer = turn_on-shorter b.conn.input n k b a in
      let f = turn_on-Framed b.conn.input n k b a h in (omega arith, ap (turns_left c) f.dst_input)

turns_lower :
    (ts : List RelayTurn) (a0 b0 : End) (r : Relaying)
    → Inv a0 b0 r
    → (left_to_send (relay_turns ts r) ≤ left_to_send r - sends_in ts)
      × (left_to_receive (relay_turns ts r) ≤ left_to_receive r - receives_in ts)
unfolding relay_turns
turns_lower [] a0 b0 r v = (omega arith, omega arith)
turns_lower (sends n ∷ ts) a0 b0 r v =
    let (one, same) = sends-left n r.a r.b r.sending r.receiving v.half_b in
    let (s, t) = turns_lower ts a0 b0 (relay_turn (sends n) r) (sends-Inv n a0 b0 r v) in
    (omega arith, omega arith)
turns_lower (receives n ∷ ts) a0 b0 r v =
    let (one, same) = receives-left n r.a r.b r.sending r.receiving v.half_a in
    let (s, t) = turns_lower ts a0 b0 (relay_turn (receives n) r) (receives-Inv n a0 b0 r v) in
    (omega arith, omega arith)

-- What one direction has done in the end: `sofar` was written, all of it if there was no error.
pub record Done (given before written : Bytes) (count : ℕ) (e : Option CopyError) : Type 0 where
  pub sofar : Bytes
  pub rest : Bytes
  pub given_split : given ≡ sofar ++ rest
  pub written_split : written ≡ before ++ sofar
  pub counted : count ≡ length sofar
  pub complete : e ≡ none → sofar ≡ given

finished-Done :
    (given before left written : Bytes) (count : ℕ) (e : Option CopyError)
    → Copied given before left written (finished count e)
    → Done given before written count e
finished-Done given before left written count e v = record {
  sofar = v.sofar;
  rest = v.rest;
  given_split = v.given_split;
  written_split = v.written_split;
  counted = v.counted;
  complete = λ h.
      let clean : failed (finished count e) ≡ false = rw h in
      let all : v.rest ≡ [] = v.complete refl clean in
      sym (v.given_split ∙ ap (λ xs. v.sofar ++ xs) all ∙ append-nil v.sofar);
}

-- Relay returned these statistics for these ends.
abbrev pub Returned : End → End → Relaying → Type 0
Returned a b r =
    (s : Stats) × (relay_stats r ≡ some s)
    × Done a.conn.input b.conn.output r.b.conn.output s.sent_bytes s.sent_err
    × Done b.conn.input a.conn.output r.a.conn.output s.recv_bytes s.recv_err

returned :
    (a0 b0 a b : End) (c d : Copying)
    → Inv a0 b0 (record { a = a; b = b; sending = c; receiving = d })
    → turns_left c a.conn.input ≡ 0
    → turns_left d b.conn.input ≡ 0
    → Returned a0 b0 (record { a = a; b = b; sending = c; receiving = d })
unfolding relay_stats
returned a0 b0 a b (going n) d v hs hr = absurd (omega arith)
returned a0 b0 a b (finished n e) (going m) v hs hr = absurd (omega arith)
returned a0 b0 a b (finished n e) (finished m f) v hs hr = (
  record { sent_bytes = n; recv_bytes = m; sent_err = e; recv_err = f },
  refl,
  finished-Done a0.conn.input b0.conn.output a.conn.input b.conn.output n e v.sent,
  finished-Done b0.conn.input a0.conn.output b.conn.input a.conn.output m f v.received,
)

-- In any order of the turns of its two goroutines in which each has more turns than its side has
-- bytes to send, on connections that can be half closed, Relay returns; what each side got is a
-- front part of what the other sent, as long as the count in the statistics, and all of it where
-- the statistics have no error.
pub relay-Returned :
    (ts : List RelayTurn) (a b : End)
    → a.half_closes ≡ true
    → b.half_closes ≡ true
    → length a.conn.input < sends_in ts
    → length b.conn.input < receives_in ts
    → Returned a b (relay_turns ts (relay a b))
unfolding relay
relay-Returned ts a b ha hb ns nr =
    let r = relay_turns ts (relay a b) in
    let v = relay-Inv a b ha hb in
    let (s, t) = turns_lower ts a b (relay a b) v in
    returned a b r.a r.b r.sending r.receiving (relay_turns-Inv ts a b (relay a b) v) (omega arith)
      (omega arith)
