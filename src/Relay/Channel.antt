-- ===== src/Relay/Channel.antt =====
-- relay/stream.go: the state of one multiplexed channel, each critical section as one step.
pub mod Flow
mod Runs
-- int64 is its bit pattern below 2 ^ 64.
use tunnelmanager.Prelude.{
  ◌%◌, ◌&&◌, ◌*◌, ◌++◌, ◌+◌, ◌-◌, ◌==◌, ◌^◌, Bool, Bytes, Option, [], drop, false, if◌then◌else◌,
  length, ltb, none, some, take, true, ℕ,
}

pub data ChannelStatus : Type 0 where
  ch_open ch_write_closed ch_closed : ChannelStatus

-- `status >= chWriteClosed` and `status >= chClosed`.
abbrev pub write_ended : ChannelStatus → Bool
write_ended ch_open = false
write_ended ch_write_closed = true
write_ended ch_closed = true

abbrev pub is_closed : ChannelStatus → Bool
is_closed ch_closed = true
is_closed _ = false

pub data ChannelError : Type 0 where
  io_eof buffer_overflow closed_pipe : ChannelError

abbrev pub default_send_window : ℕ
default_send_window = 64 * 1024

abbrev pub max_receive_buffer : ℕ
max_receive_buffer = 256 * 1024

pub record Channel : Type 0 where
  pub id : ℕ
  pub target : Bytes
  pub rb : Bytes
  pub status : ChannelStatus
  pub rerr : Option ChannelError
  pub send_window : ℕ

unfoldable pub new_channel : ℕ → Bytes → Channel
new_channel id target = record {
  id = id;
  target = target;
  rb = [];
  status = ch_open;
  rerr = none;
  send_window = default_send_window;
}

-- 0 < w, for an int64.
abbrev pub is_positive : ℕ → Bool
is_positive w = ltb 0 w && ltb w (2 ^ 63)

-- The chunk that Write may send now: the whole of `b`, or as much as the window allows.
abbrev pub chunk_of : Channel → Bytes → Bytes
chunk_of ch b = if ltb ch.send_window (length b) then take ch.send_window b else b

pub data WriteTurn : Type 0 where
  wait : WriteTurn
  refuse : WriteTurn
  send : Bytes → Channel → WriteTurn

-- One turn of Write's loop up to the unlock of wmu: with no credit it waits, or fails when the
-- write side has been closed meanwhile; with credit it takes a chunk and pays for it.
unfoldable pub take_chunk : Channel → Bytes → WriteTurn
take_chunk ch b =
    if is_positive ch.send_window
    then send (chunk_of ch b) (record ch { send_window = ch.send_window - length (chunk_of ch b) })
    else if write_ended ch.status
    then refuse
    else wait

pub data ReadTurn : Type 0 where
  wait : ReadTurn
  fail : ChannelError → ReadTurn
  got : Bytes → Channel → ReadTurn

-- Read into a buffer of `n` bytes. Buffered data comes before an error.
unfoldable pub read_turn : ℕ → Channel → ReadTurn
read_turn n ch =
    if length ch.rb == 0
    then elim ch.rerr [ some e ↦ fail e | none ↦ if is_closed ch.status then fail io_eof else wait ]
    else got (take n ch.rb) (record ch { rb = drop n ch.rb })

-- The Boolean says whether `go ch.Close()` was started.
unfoldable pub push_data : Bytes → Channel → Channel × Bool
push_data new ch =
    if ltb max_receive_buffer (length ch.rb + length new)
    then (record ch { rerr = some buffer_overflow }, true)
    else (record ch { rb = ch.rb ++ new }, false)

unfoldable pub set_error : ChannelError → Channel → Channel
set_error e ch = record ch { rerr = some e }

unfoldable pub add_send_window : ℕ → Channel → Channel
add_send_window delta ch = record ch { send_window = (ch.send_window + delta) % 2 ^ 64 }
