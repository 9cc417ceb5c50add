-- ===== src/Relay/RemoteClient/Runs.antt =====
-- Concrete runs of relay/remoteclient.go with the token "t".
use tunnelmanager.Prelude.{
  ◌++◌, ◌∷◌, ◌≡◌, List, Option, Result, [], ap, err, none, ok, refl, some, text_eq, true,
}
use tunnelmanager.Relay.RemoteClient.Turns.{Inv, dials, sets_up, closes, take_turns, run-Inv}
use tunnelmanager.Relay.Register.{pack_entries, pack_tunnels}
use tunnelmanager.Relay.Conn.{Conn, read_full, write}
use tunnelmanager.Relay.CtrlConn.{new_ctrl_conn}
use tunnelmanager.Relay.RemoteClient.{
  ClientError, auth, RemoteClient, new_remote_client, serving, dialled, run, log_in,
}
use tunnelmanager.Relay.Frame.{read_frame, write_frame}
use tunnelmanager.Relay.Auth.{rejected, auth_payload, auth_client, register_client}
use tunnelmanager.Relay.RemoteClient.CloseRace.{close_missed}
use tunnelmanager.Relay.RemoteClient.Reconnects.{all_turns, trying, connected, reconnects}

-- What a server answers to the right token, and to a wrong one.
abbrev lets_in : Conn
lets_in = record { input = 0 ∷ 0 ∷ 0 ∷ 1 ∷ 7 ∷ 1 ∷ []; output = []; writes = 4 }

abbrev turns_away : Conn
turns_away = record { input = 0 ∷ 0 ∷ 0 ∷ 1 ∷ 7 ∷ 0 ∷ []; output = []; writes = 4 }

abbrev logged_in : Result ClientError (Unit {0}) × Conn
logged_in = log_in (116 ∷ []) [] lets_in

logged_in_ok : logged_in.0 ≡ ok tt
unfolding log_in auth_client auth_payload register_client write_frame read_frame read_full write
    text_eq pack_tunnels pack_entries
logged_in_ok = refl

login : logged_in ≡ (ok tt, logged_in.1)
login = ap (λ (r : Result ClientError (Unit {0})). (r, logged_in.1)) logged_in_ok

abbrev outages : List (Option Conn)
outages = none ∷ some turns_away ∷ []

turned_away : (log_in (116 ∷ []) [] turns_away).0 ≡ err (auth rejected)
unfolding log_in auth_client auth_payload register_client write_frame read_frame read_full write
    text_eq pack_tunnels pack_entries
turned_away = refl

reconnects_example :
    (e : Option ClientError) × (take_turns
        (all_turns 0 (λ k. k) (outages ++ (some lets_in ∷ [])))
        (trying (116 ∷ []) [] none 0 0)
      ≡ connected (116 ∷ []) [] e 2 2 (new_ctrl_conn logged_in.1 0))
reconnects_example =
    reconnects 0 (λ k. k) (116 ∷ []) [] outages lets_in logged_in.1 none 0 0
      (tt, ((auth rejected, turned_away), tt)) login

abbrev client : RemoteClient
client = new_remote_client (116 ∷ []) []

close_missed_example :
    take_turns
      ((0, true, closes) ∷ (0, true, sets_up) ∷ [])
      (record { client = client; attempt = 0; place = dialled lets_in })
    ≡ record {
      client = record client { stopped = true; cc = some (new_ctrl_conn logged_in.1 0) };
      attempt = 0;
      place = serving;
    }
unfolding new_remote_client
close_missed_example = close_missed 0 lets_in logged_in.1 client 0 refl refl login

run-Inv_example : Inv (
    take_turns
      ((0, true, dials (some lets_in)) ∷ (0, true, closes) ∷ (0, true, sets_up) ∷ [])
      (run client))
run-Inv_example =
    run-Inv (116 ∷ []) []
      ((0, true, dials (some lets_in)) ∷ (0, true, closes) ∷ (0, true, sets_up) ∷ [])
