-- ===== src/Relay/RemoteClient/CloseRace.antt =====
-- relay/remoteclient.go: Close while connect is between the dial and `rc.cc = cc`.
use tunnelmanager.Prelude.{◌∙◌, ◌∷◌, ◌≡◌, Option, Result, [], ap, false, none, ok, some, true, ℕ}
use tunnelmanager.Relay.RemoteClient.{
  close, ClientError, RemoteClient, serving, dialled, log_in, set_up, Loop,
}
use tunnelmanager.Relay.Conn.{Conn}
use tunnelmanager.Relay.CtrlConn.{new_ctrl_conn}
use tunnelmanager.Relay.RemoteClient.Turns.{sets_up, closes, take_turn, take_turns}

closed_early :
    (rc : RemoteClient)
    → rc.stopped ≡ false
    → rc.cc ≡ none
    → close rc ≡ some (record rc { stopped = true; cc = none })
unfolding close
closed_early rc live off = rw (close, live, off)

logged_in :
    (now : ℕ) (c c' : Conn) (l : Loop)
    → log_in l.client.token l.client.tunnels c ≡ (ok tt, c')
    → set_up now c l
      ≡ record l { client = record l.client { cc = some (new_ctrl_conn c' now) }; place = serving }
unfolding set_up
logged_in now c c' l good = rw (
  set_up,
  ap (λ (r : Result ClientError (Unit {0}) × Conn). r.0) good,
  ap (λ (r : Result ClientError (Unit {0}) × Conn). r.1) good,
)

-- When Close comes between a dial and the login that then succeeds, on a client that was not
-- closed, the client stays connected on an open connection and Run serves it, although the client
-- is closed.
pub close_missed :
    (now : ℕ) (c c' : Conn) (rc : RemoteClient) (n : ℕ)
    → rc.stopped ≡ false
    → rc.cc ≡ none
    → log_in rc.token rc.tunnels c ≡ (ok tt, c')
    → take_turns
        ((now, true, closes) ∷ (now, true, sets_up) ∷ [])
        (record { client = rc; attempt = n; place = dialled c })
      ≡ record {
        client = record rc { stopped = true; cc = some (new_ctrl_conn c' now) };
        attempt = n;
        place = serving;
      }
unfolding take_turns take_turn
close_missed now c c' rc n live off good =
    ap (λ (o : Option RemoteClient). take_turn now true sets_up (after o))
      (closed_early rc live off)
    ∙ logged_in now c c'
        (record {
          client = record rc { stopped = true; cc = none };
          attempt = n;
          place = dialled c;
        })
        good
  where
    l : Loop
    l = record { client = rc; attempt = n; place = dialled c }

    after : Option RemoteClient → Loop
    after o = elim o [ none ↦ l | some rc' ↦ record l { client = rc' } ]
