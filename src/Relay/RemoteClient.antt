-- ===== src/Relay/RemoteClient.antt =====
-- relay/remoteclient.go: RemoteClient, whose goroutines and callers take turns. Dialling is an
-- argument, and so is the delay that BackoffDelay chooses for an attempt.
pub mod Turns
pub mod Reconnects
pub mod CloseRace
mod Runs
use tunnelmanager.Prelude.{
  ◌+◌, ◌>>=◌, ◌>>◌, Action, Bool, Bytes, List, Option, [], err, false, if◌then◌else◌, none, ok,
  pure, some, text_eq, true, wrap, ℕ,
}
use tunnelmanager.Relay.CtrlConn.{close as close_ctrl_conn, CtrlConn, new_ctrl_conn}
use tunnelmanager.Relay.CtrlConn.Calls.{accepted, ends, close_channel, AcceptCall, accept_channel}
use tunnelmanager.Relay.Register.{RemoteTunnel}
use tunnelmanager.Relay.Conn.{Conn}
use tunnelmanager.Relay.Frame.{FrameError}
use tunnelmanager.Relay.Auth.{AuthError, auth_client, register_client}
use mathlib.Core.Option

pub data ClientError : Type 0 where
  dial_server : ClientError
  auth : AuthError → ClientError
  register : FrameError → ClientError
  accept_failed : Option FrameError → ClientError
  dial_target : Bytes → ClientError

-- `stopped` says that stopCh is closed.
pub record RemoteClient : Type 0 where
  pub token : Bytes
  pub tunnels : List RemoteTunnel
  pub stopped : Bool
  pub cc : Option CtrlConn
  pub last_err : Option ClientError
  pub reconnect_count : ℕ

unfoldable pub new_remote_client : Bytes → List RemoteTunnel → RemoteClient
new_remote_client token tunnels = record {
  token = token;
  tunnels = tunnels;
  stopped = false;
  cc = none;
  last_err = none;
  reconnect_count = 0;
}

unfoldable pub is_connected : RemoteClient → Bool
is_connected rc = elim rc.cc [ none ↦ false | some _ ↦ true ]

unfoldable pub set_last_err : ClientError → RemoteClient → RemoteClient
set_last_err e rc = record rc { last_err = some e }

-- Where the goroutine of Run stands: at the top of the loop, in connect with a connection that was
-- dialled, in handleChannels, behind connect with an error, in the wait, or returned.
pub data Place : Type 0 where
  at_top serving returned : Place
  dialled : Conn → Place
  failing : ClientError → Place
  waiting : ℕ → Place

-- The client with the local state of Run.
pub record Loop : Type 0 where
  pub client : RemoteClient
  pub attempt : ℕ
  pub place : Place

unfoldable pub run : RemoteClient → Loop
run rc = record { client = rc; attempt = 0; place = at_top }

-- The first half of connect. A connection on which it failed is closed and forgotten.
unfoldable pub log_in : Bytes → List RemoteTunnel → Action Conn ClientError (Unit {0})
log_in token tunnels = do
  if text_eq token [] then pure tt else wrap auth (auth_client token)
  wrap register (register_client tunnels)

-- The top of the loop up to the dial: `conn` is its result.
unfoldable pub dial : Option Conn → Loop → Loop
dial conn l = if l.client.stopped then record l { place = returned } else elim conn [
  | none ↦ record l { place = failing dial_server }
  | some c ↦ record l { place = dialled c }
]

-- The rest of connect, up to handleChannels.
unfoldable pub set_up : ℕ → Conn → Loop → Loop
set_up now c l =
    let (r, c') = log_in l.client.token l.client.tunnels c in
    elim r [
      | err e ↦ record l { place = failing e }
      | ok _ ↦ record l {
        client = record l.client { cc = some (new_ctrl_conn c' now) };
        place = serving;
      }
    ]

-- Run after connect returned an error.
unfoldable pub back_off : (ℕ → ℕ) → ClientError → Loop → Loop
unfolding set_last_err
back_off delay e l = if l.client.stopped then record l { place = returned } else record l {
  client = set_last_err e (record l.client { reconnect_count = l.client.reconnect_count + 1 });
  attempt = l.attempt + 1;
  place = waiting (delay l.attempt);
}

-- The wait ends by the timer or, once the client is closed, by the stop channel.
unfoldable pub wake : Bool → Loop → Loop
wake by_timer l =
    if by_timer
    then record l { place = at_top }
    else if l.client.stopped
    then record l { place = returned }
    else l

-- What AcceptChannel came back with. Its error is the end of connect, which returns none itself.
pub after_accept : AcceptCall → Loop → Loop × Option ℕ
unfolding set_last_err
after_accept AcceptCall.blocks l = (l, none)
after_accept (accepted p conn) l =
    (record l { client = record l.client { cc = some conn } }, some p)
after_accept (ends e) l = (
  record l {
    client = record (set_last_err (accept_failed e) l.client) { cc = none };
    attempt = 0;
    place = at_top;
  },
  none,
)

-- A turn of handleChannels.
unfoldable pub accept_turn : Bool → Loop → Loop × Option ℕ
unfolding after_accept
accept_turn pick l = elim l.client.cc [
  | none ↦ (l, none)
  | some conn ↦ after_accept (accept_channel pick conn) l
]

-- relayChannel up to the relay, on the current control connection: a target that cannot be dialled
-- closes the channel.
unfoldable pub start_relay : Bool → ℕ → Bytes → RemoteClient → RemoteClient
unfolding set_last_err
start_relay works p target rc =
    if works then rc else record (set_last_err (dial_target target) rc) {
      cc = Option.map (λ conn. (close_channel p conn).1) rc.cc;
    }

-- Close; `none` is the panic of a second call.
unfoldable pub close : RemoteClient → Option RemoteClient
close rc =
    if rc.stopped
    then none
    else some (record rc { stopped = true; cc = Option.map close_ctrl_conn rc.cc })
