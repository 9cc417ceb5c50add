-- ===== src/Relay/CtrlConn/Runs.antt =====
-- A concrete control connection of relay/ctrlconn.go with one channel.
use tunnelmanager.Prelude.{◌↔◌, ◌∷◌, ◌≡◌, ◌≤◌, [], arith, refl}
use tunnelmanager.Relay.CtrlConn.Calls.{write}
use tunnelmanager.Relay.CtrlConn.Invariant.{Inv, HandledInv}
use tunnelmanager.Relay.Conn.{Conn}
use tunnelmanager.Relay.CtrlConn.{
  CtrlConn, new_ctrl_conn, delete, store, add_channel, panics, handle_new_channel, read_loop_turn,
}
use tunnelmanager.Relay.Channel.{new_channel}
use tunnelmanager.Relay.CtrlConn.NewChannel.{handle_new_channel_panics}
use tunnelmanager.Relay.CtrlConn.Invariant.Steps.{read_loop_turn-Inv}
use tunnelmanager.Relay.CtrlConn.Calls.Write.{Accounted, write-Accounted}

abbrev conn : Conn
conn = record {
  input = 0 ∷ 0 ∷ 0 ∷ 6 ∷ 4 ∷ 0 ∷ 0 ∷ 0 ∷ 3 ∷ 104 ∷ 105 ∷ [];
  output = [];
  writes = 100;
}

abbrev with_channel : CtrlConn
with_channel = (add_channel 3 (97 ∷ []) (new_ctrl_conn conn 0)).0

with_channel-Inv : Inv with_channel
unfolding add_channel store delete new_ctrl_conn new_channel
with_channel-Inv = record {
  entries = ((new_channel 3 (97 ∷ []), refl, refl), tt);
  bounded = (omega arith, tt);
  queue = omega arith;
}

read_loop_turn-Inv_example : HandledInv (read_loop_turn 5 with_channel)
read_loop_turn-Inv_example = read_loop_turn-Inv 5 with_channel with_channel-Inv

write-Accounted_example : Accounted (104 ∷ 105 ∷ []) (write 0 (104 ∷ 105 ∷ []) with_channel)
write-Accounted_example = write-Accounted 0 (104 ∷ 105 ∷ []) with_channel

handle_new_channel_panics_example :
    (handle_new_channel (0 ∷ 0 ∷ 0 ∷ 9 ∷ 0 ∷ 1 ∷ 97 ∷ []) with_channel ≡ panics)
    ↔ ((7 ≤ 7) × (65530 ≤ 1))
handle_new_channel_panics_example =
    handle_new_channel_panics (0 ∷ 0 ∷ 0 ∷ 9 ∷ 0 ∷ 1 ∷ 97 ∷ []) with_channel (ground arith)
