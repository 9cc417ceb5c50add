-- ===== src/Relay/RemoteClient/Turns.antt =====
-- Every order of the turns of the goroutines of relay/remoteclient.go.
use tunnelmanager.Prelude.{
  ◌<◌, ◌∙◌, ◌∷◌, ◌≡◌, ◌≤◌, Bool, Bytes, List, Option, Option-cases, Result, [], ap, arith, err,
  false, if_both, if_split, inl, inr, none, ok, refl, some, sym, true, ℕ,
}
use tunnelmanager.Relay.CtrlConn.{close as close_ctrl_conn, CtrlConn, new_ctrl_conn}
use tunnelmanager.Relay.RemoteClient.{
  close, ClientError, is_connected, Place, at_top, serving, returned, dialled, failing, waiting,
  Loop, dial, set_up, back_off, wake, accept_turn, start_relay, dial_server, log_in, after_accept,
  RemoteClient, new_remote_client, run,
}
use tunnelmanager.Relay.CtrlConn.Calls.{accepted, ends, AcceptCall, accept_channel, close_channel}
use tunnelmanager.Relay.Conn.{Conn}
use tunnelmanager.Relay.Register.{RemoteTunnel}
use mathlib.Core.Option

pub data Turn : Type 0 where
  dials : Option Conn → Turn
  sets_up wakes accepts : Turn
  backs_off : (ℕ → ℕ) → Turn
  relays : Bool → ℕ → Bytes → Turn
  closes : Turn
  moves : (CtrlConn → CtrlConn) → Turn  -- what the control connection's own goroutines do

-- A turn of Run is taken only where Run stands at it; every other turn may come at any time.
unfoldable pub take_turn : ℕ → Bool → Turn → Loop → Loop
take_turn now pick (dials c) l = elim l.place [ at_top ↦ dial c l | _ ↦ l ]
take_turn now pick sets_up l = elim l.place [ dialled c ↦ set_up now c l | _ ↦ l ]
take_turn now pick (backs_off delay) l = elim l.place [ failing e ↦ back_off delay e l | _ ↦ l ]
take_turn now pick wakes l = elim l.place [ waiting d ↦ wake pick l | _ ↦ l ]
take_turn now pick accepts l = elim l.place [ serving ↦ (accept_turn pick l).0 | _ ↦ l ]
take_turn now pick (relays works p target) l = record l {
  client = start_relay works p target l.client;
}
take_turn now pick closes l = elim (close l.client) [
  | none ↦ l
  | some rc ↦ record l { client = rc }
]
take_turn now pick (moves f) l = record l {
  client = record l.client { cc = Option.map f l.client.cc };
}

-- Each turn with its time and the choice that it makes.
unfoldable pub take_turns : List (ℕ × Bool × Turn) → Loop → Loop
unfolding take_turn
take_turns [] l = l
take_turns ((now, pick, t) ∷ ts) l = take_turns ts (take_turn now pick t l)

abbrev pub is_serving : Place → Bool
is_serving serving = true
is_serving _ = false

abbrev pub is_returned : Place → Bool
is_returned returned = true
is_returned _ = false

abbrev is_some : Option ClientError → Bool
is_some none = false
is_some (some _) = true

pub record Inv (l : Loop) : Type 0 where
  pub connected : is_connected l.client ≡ is_serving l.place
  pub counted : l.attempt ≤ l.client.reconnect_count
  pub reported : 0 < l.client.reconnect_count → is_some l.client.last_err ≡ true
  pub stopped : is_returned l.place ≡ true → l.client.stopped ≡ true

-- A place at which Run neither serves nor has returned may follow one like it.
move-Inv :
    (place : Place) (l : Loop)
    → is_serving l.place ≡ false
    → is_serving place ≡ false
    → (is_returned place ≡ true → l.client.stopped ≡ true)
    → Inv l
    → Inv (record l { place = place })
move-Inv place l old new ret v = record {
  connected = v.connected ∙ old ∙ sym new;
  counted = v.counted;
  reported = v.reported;
  stopped = ret;
}

never : {P : Type 0} → false ≡ true → P
never h = cc

dial-Inv : (c : Option Conn) (l : Loop) → l.place ≡ at_top → Inv l → Inv (dial c l)
unfolding dial
dial-Inv c l at v =
    if_split Inv l.client.stopped (λ e. move-Inv returned l (ap is_serving at) refl (λ _. e) v)
      (λ _. by_result c)
  where
    by_result :
        (c : Option Conn)
        → Inv (elim c [
          | none ↦ record l { place = failing dial_server }
          | some c' ↦ record l { place = dialled c' }
        ])
    by_result none = move-Inv (failing dial_server) l (ap is_serving at) refl never v
    by_result (some c') = move-Inv (dialled c') l (ap is_serving at) refl never v

set_up-Inv : (now : ℕ) (c : Conn) (l : Loop) → l.place ≡ dialled c → Inv l → Inv (set_up now c l)
unfolding set_up is_connected
set_up-Inv now c l at v = by_result (log_in l.client.token l.client.tunnels c)
  where
    by_result :
        (r : Result ClientError (Unit {0}) × Conn)
        → Inv (elim r.0 [
          | err e ↦ record l { place = failing e }
          | ok _ ↦ record l {
            client = record l.client { cc = some (new_ctrl_conn r.1 now) };
            place = serving;
          }
        ])
    by_result (err e, c') = move-Inv (failing e) l (ap is_serving at) refl never v
    by_result (ok _, c') = record {
      connected = refl;
      counted = v.counted;
      reported = v.reported;
      stopped = never;
    }

back_off-Inv :
    (delay : ℕ → ℕ) (e : ClientError) (l : Loop)
    → l.place ≡ failing e
    → Inv l
    → Inv (back_off delay e l)
unfolding back_off is_connected
back_off-Inv delay e l at v =
    if_split Inv l.client.stopped (λ s. move-Inv returned l (ap is_serving at) refl (λ _. s) v)
      (λ _. record {
        connected = v.connected ∙ ap is_serving at;
        counted = let h = v.counted in omega arith;
        reported = λ _. refl;
        stopped = never;
      })

wake-Inv : (pick : Bool) (d : ℕ) (l : Loop) → l.place ≡ waiting d → Inv l → Inv (wake pick l)
unfolding wake
wake-Inv pick d l at v = if_both Inv pick (move-Inv at_top l (ap is_serving at) refl never v) (
    if_split Inv l.client.stopped (λ e. move-Inv returned l (ap is_serving at) refl (λ _. e) v)
      (λ _. v))

after_accept-Inv :
    (a : AcceptCall) (l : Loop) → l.place ≡ serving → Inv l → Inv (after_accept a l).0
unfolding after_accept is_connected
after_accept-Inv AcceptCall.blocks l at v = v
after_accept-Inv (accepted p conn) l at v = record {
  connected = sym (ap is_serving at);
  counted = v.counted;
  reported = v.reported;
  stopped = v.stopped;
}
after_accept-Inv (ends e) l at v = record {
  connected = refl;
  counted = omega arith;
  reported = λ _. refl;
  stopped = never;
}

accept_turn-Inv : (pick : Bool) (l : Loop) → l.place ≡ serving → Inv l → Inv (accept_turn pick l).0
unfolding accept_turn
accept_turn-Inv pick l at v = elim (Option-cases l.client.cc) [
  | inl e ↦ rw (e, accept_turn) v
  | inr (conn, e) ↦ rw (e, accept_turn) (after_accept-Inv (accept_channel pick conn) l at v)
]

-- A change of the client alone.
client-Inv :
    (rc : RemoteClient) (l : Loop)
    → is_connected rc ≡ is_connected l.client
    → rc.reconnect_count ≡ l.client.reconnect_count
    → (is_some l.client.last_err ≡ true → is_some rc.last_err ≡ true)
    → (l.client.stopped ≡ true → rc.stopped ≡ true)
    → Inv l
    → Inv (record l { client = rc })
client-Inv rc l same count told halted v = record {
  connected = same ∙ v.connected;
  counted = let h = v.counted in omega arith;
  reported = λ h. told (v.reported (omega arith));
  stopped = λ h. halted (v.stopped h);
}

is_connected-map :
    (f : CtrlConn → CtrlConn) (rc : RemoteClient)
    → is_connected (record rc { cc = Option.map f rc.cc }) ≡ is_connected rc
unfolding is_connected
is_connected-map f rc = over rc.cc
  where
    over :
        (o : Option CtrlConn)
        → elim (Option.map f o) [ none ↦ false | some _ ↦ true ]
          ≡ elim o [ none ↦ false | some _ ↦ true ]
    over none = refl
    over (some _) = refl

start_relay-Inv :
    (works : Bool) (p : ℕ) (target : Bytes) (l : Loop)
    → Inv l
    → Inv (record l { client = start_relay works p target l.client })
unfolding start_relay is_connected
start_relay-Inv true p target l v = client-Inv l.client l refl refl (λ h. h) (λ h. h) v
start_relay-Inv false p target l v =
    client-Inv (start_relay false p target l.client) l
      (is_connected-map (λ conn. (close_channel p conn).1) l.client) refl (λ _. refl) (λ h. h) v

take_turn-Inv : (now : ℕ) (pick : Bool) (t : Turn) (l : Loop) → Inv l → Inv (take_turn now pick t l)
unfolding take_turn close is_connected
take_turn-Inv now pick (dials c) l v = at_place l.place refl
  where
    at_place : (p : Place) → l.place ≡ p → Inv (elim p [ at_top ↦ dial c l | _ ↦ l ])
    at_place at_top at = dial-Inv c l at v
    at_place _ at = v
take_turn-Inv now pick sets_up l v = at_place l.place refl
  where
    at_place : (p : Place) → l.place ≡ p → Inv (elim p [ dialled c ↦ set_up now c l | _ ↦ l ])
    at_place (dialled c) at = set_up-Inv now c l at v
    at_place _ at = v
take_turn-Inv now pick (backs_off delay) l v = at_place l.place refl
  where
    at_place : (p : Place) → l.place ≡ p → Inv (elim p [ failing e ↦ back_off delay e l | _ ↦ l ])
    at_place (failing e) at = back_off-Inv delay e l at v
    at_place _ at = v
take_turn-Inv now pick wakes l v = at_place l.place refl
  where
    at_place : (p : Place) → l.place ≡ p → Inv (elim p [ waiting d ↦ wake pick l | _ ↦ l ])
    at_place (waiting d) at = wake-Inv pick d l at v
    at_place _ at = v
take_turn-Inv now pick accepts l v = at_place l.place refl
  where
    at_place : (p : Place) → l.place ≡ p → Inv (elim p [ serving ↦ (accept_turn pick l).0 | _ ↦ l ])
    at_place serving at = accept_turn-Inv pick l at v
    at_place _ at = v
take_turn-Inv now pick (relays works p target) l v = start_relay-Inv works p target l v
take_turn-Inv now pick closes l v =
    if_split
      (λ (o : Option RemoteClient). Inv (elim o [ none ↦ l | some rc ↦ record l { client = rc } ]))
      l.client.stopped (λ _. v)
      (λ _.
        client-Inv (record l.client { stopped = true; cc = Option.map close_ctrl_conn l.client.cc })
          l (is_connected-map close_ctrl_conn l.client) refl (λ h. h) (λ _. refl) v)
take_turn-Inv now pick (moves f) l v =
    client-Inv (record l.client { cc = Option.map f l.client.cc }) l (is_connected-map f l.client)
      refl (λ h. h) (λ h. h) v

pub take_turns-Inv : (ts : List (ℕ × Bool × Turn)) (l : Loop) → Inv l → Inv (take_turns ts l)
unfolding take_turns
take_turns-Inv [] l v = v
take_turns-Inv ((now, pick, t) ∷ ts) l v =
    take_turns-Inv ts (take_turn now pick t l) (take_turn-Inv now pick t l v)

-- After any turns of the goroutines of a new remote client, in any order, IsConnected holds
-- exactly while Run serves channels, the attempt number is at most the reconnect count, a client
-- that ever reconnected has a last error, and Run has returned only if the client was closed.
pub run-Inv :
    (token : Bytes) (tunnels : List RemoteTunnel) (ts : List (ℕ × Bool × Turn))
    → Inv (take_turns ts (run (new_remote_client token tunnels)))
unfolding run new_remote_client is_connected
run-Inv token tunnels ts = take_turns-Inv ts (run (new_remote_client token tunnels)) (record {
  connected = refl;
  counted = omega arith;
  reported = λ h. absurd (omega arith);
  stopped = never;
})
