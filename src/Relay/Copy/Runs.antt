-- ===== src/Relay/Copy/Runs.antt =====
-- relay/relay.go: a client that sends three bytes to a server that answers two.
use tunnelmanager.Prelude.{◌∷◌, List, [], arith, false, refl, true}
use tunnelmanager.Relay.Copy.{End, relay, RelayTurn, sends, receives, relay_turns}
use tunnelmanager.Relay.Copy.Ends.{Returned, relay-Returned}

abbrev client : End
client = record {
  conn = record { input = 1 ∷ 2 ∷ 3 ∷ []; output = []; writes = 5 };
  read_error = false;
  half_closes = true;
  write_closed = false;
}

abbrev server : End
server = record {
  conn = record { input = 8 ∷ 9 ∷ []; output = []; writes = 5 };
  read_error = false;
  half_closes = true;
  write_closed = false;
}

abbrev schedule : List RelayTurn
schedule = sends 2 ∷ receives 1 ∷ sends 9 ∷ sends 1 ∷ receives 9 ∷ sends 1 ∷ receives 1 ∷ []

relay-Returned_example : Returned client server (relay_turns schedule (relay client server))
relay-Returned_example = relay-Returned schedule client server refl refl (omega arith) (omega arith)
