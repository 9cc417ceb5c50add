-- ===== src/Relay/Copy/Both.antt =====
-- relay/relay.go: both goroutines of Relay together.
use tunnelmanager.Prelude.{◌∙◌, ◌∷◌, ◌≡◌, List, [], append-nil, refl, sym, true, ℕ}
use tunnelmanager.Relay.Copy.Complete.{turn_on-Copied, Copied, Copied-same}
use tunnelmanager.Relay.Copy.{
  End, Copying, going, finished, copy_turn, Relaying, RelayTurn, sends, receives, relay_turn, relay,
  relay_turns,
}
use tunnelmanager.Relay.Copy.Turn.{turn_on-Framed}

pub record Inv (a0 b0 : End) (r : Relaying) : Type 0 where
  pub half_a : r.a.half_closes ≡ true
  pub half_b : r.b.half_closes ≡ true
  pub sent : Copied a0.conn.input b0.conn.output r.a.conn.input r.b.conn.output r.sending
  pub received : Copied b0.conn.input a0.conn.output r.b.conn.input r.a.conn.output r.receiving

pub sends-Inv :
    (n : ℕ) (a0 b0 : End) (r : Relaying) → Inv a0 b0 r → Inv a0 b0 (relay_turn (sends n) r)
unfolding relay_turn copy_turn
sends-Inv n a0 b0 r v = by_place r.sending v.sent
  where
    by_place :
        (c : Copying)
        → Copied a0.conn.input b0.conn.output r.a.conn.input r.b.conn.output c
        → Inv a0 b0 (elim c [
          | finished _ _ ↦ r
          | going count ↦
              let (a, b, c') = copy_turn n r.a r.b count in record r { a = a; b = b; sending = c' }
        ])
    by_place (finished k e) s = v
    by_place (going count) s =
        let f = turn_on-Framed r.a.conn.input n count r.a r.b v.half_b in
        record {
          half_a = f.src_half ∙ v.half_a;
          half_b = f.dst_half;
          sent = turn_on-Copied a0.conn.input b0.conn.output r.a.conn.input n count r.a r.b s;
          received =
              Copied-same b0.conn.input a0.conn.output r.b.conn.input _ r.a.conn.output _
                r.receiving f.dst_input f.src_output v.received;
        }

pub receives-Inv :
    (n : ℕ) (a0 b0 : End) (r : Relaying) → Inv a0 b0 r → Inv a0 b0 (relay_turn (receives n) r)
unfolding relay_turn copy_turn
receives-Inv n a0 b0 r v = by_place r.receiving v.received
  where
    by_place :
        (c : Copying)
        → Copied b0.conn.input a0.conn.output r.b.conn.input r.a.conn.output c
        → Inv a0 b0 (elim c [
          | finished _ _ ↦ r
          | going count ↦
              let (b, a, c') = copy_turn n r.b r.a count in
              record r { a = a; b = b; receiving = c' }
        ])
    by_place (finished k e) s = v
    by_place (going count) s =
        let f = turn_on-Framed r.b.conn.input n count r.b r.a v.half_a in
        record {
          half_a = f.dst_half;
          half_b = f.src_half ∙ v.half_b;
          sent =
              Copied-same a0.conn.input b0.conn.output r.a.conn.input _ r.b.conn.output _ r.sending
                f.dst_input f.src_output v.sent;
          received = turn_on-Copied b0.conn.input a0.conn.output r.b.conn.input n count r.b r.a s;
        }

pub relay_turns-Inv :
    (ts : List RelayTurn) (a0 b0 : End) (r : Relaying) → Inv a0 b0 r → Inv a0 b0 (relay_turns ts r)
unfolding relay_turns
relay_turns-Inv [] a0 b0 r v = v
relay_turns-Inv (sends n ∷ ts) a0 b0 r v =
    relay_turns-Inv ts a0 b0 (relay_turn (sends n) r) (sends-Inv n a0 b0 r v)
relay_turns-Inv (receives n ∷ ts) a0 b0 r v =
    relay_turns-Inv ts a0 b0 (relay_turn (receives n) r) (receives-Inv n a0 b0 r v)

pub relay-Inv :
    (a0 b0 : End) → a0.half_closes ≡ true → b0.half_closes ≡ true → Inv a0 b0 (relay a0 b0)
unfolding relay
relay-Inv a0 b0 ha hb = record {
  half_a = ha;
  half_b = hb;
  sent = record {
    sofar = [];
    rest = a0.conn.input;
    given_split = refl;
    written_split = sym (append-nil b0.conn.output);
    counted = refl;
    goes_on = λ h. refl;
    complete = λ h. cc;
  };
  received = record {
    sofar = [];
    rest = b0.conn.input;
    given_split = refl;
    written_split = sym (append-nil a0.conn.output);
    counted = refl;
    goes_on = λ h. refl;
    complete = λ h. cc;
  };
}
