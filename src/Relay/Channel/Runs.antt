-- ===== src/Relay/Channel/Runs.antt =====
-- Three bytes through a channel of relay/stream.go.
use tunnelmanager.Prelude.{◌++◌, ◌∷◌, ◌≡◌, ◌≤◌, [], arith, length, none, refl}
use tunnelmanager.Relay.Channel.Flow.{
  start, here, next, writes, arrives, reads, Flow, Reach, Reach-lossless,
}
use tunnelmanager.Relay.Channel.{default_send_window, new_channel, take_chunk, read_turn, push_data}

abbrev at_start : Flow
at_start = start 7 []

abbrev written_one : Flow
written_one = record at_start {
  sender = record (new_channel 7 []) { send_window = 65533 };
  data_frames = (1 ∷ 2 ∷ 3 ∷ []) ∷ [];
  written = 1 ∷ 2 ∷ 3 ∷ [];
}

abbrev arrived : Flow
arrived = record written_one {
  data_frames = [];
  receiver = record (new_channel 7 []) { rb = 1 ∷ 2 ∷ 3 ∷ [] };
}

abbrev half_read : Flow
half_read = record arrived {
  receiver = record (new_channel 7 []) { rb = 3 ∷ [] };
  updates = 2 ∷ [];
  delivered = 1 ∷ 2 ∷ [];
}

half_reached : Reach at_start half_read
unfolding start new_channel take_chunk push_data read_turn
half_reached =
    next
      (next (next here (writes at_start (1 ∷ 2 ∷ 3 ∷ []) (1 ∷ 2 ∷ 3 ∷ []) written_one.sender refl))
        (arrives written_one (1 ∷ 2 ∷ 3 ∷ []) [] refl))
      (reads arrived 2 (1 ∷ 2 ∷ []) half_read.receiver (omega arith) refl)

Reach-lossless_example :
    (half_read.written ≡ half_read.delivered ++ (half_read.receiver.rb ++ []))
    × (length half_read.receiver.rb ≤ default_send_window)
    × (half_read.sender.send_window ≤ default_send_window)
    × (half_read.receiver.rerr ≡ none)
Reach-lossless_example = Reach-lossless 7 [] half_read half_reached
