-- ===== src/Relay/CtrlConn.antt =====
-- relay/ctrlconn.go and the methods of relay/stream.go that reach the connection. Channels are
-- objects on a heap: the map from ids to objects and the callers share them.
pub mod Calls
pub mod Invariant
pub mod NewChannel
mod Runs
use tunnelmanager.Prelude.{
  ◌%◌, ◌++◌, ◌+◌, ◌==◌, ◌^◌, ◌∷◌, Action, Bool, Bytes, List, Option, [], drop, err, false,
  get_elem?, get_u16, get_u32, if◌then◌else◌, length, ltb, none, ok, put_u32, some, suc, take, true,
  zero, ℕ,
}
use tunnelmanager.Relay.Register.{put_text}
use tunnelmanager.Relay.Conn.{Conn}
use tunnelmanager.Relay.Frame.{
  frame_ping, frame_pong, frame_new_channel, frame_channel_data, frame_channel_close,
  frame_window_update, Frame, FrameError, read_frame, write_frame,
}
use tunnelmanager.Relay.Channel.{
  io_eof, Channel, new_channel, push_data, set_error, add_send_window,
}
use tunnelmanager.Relay.Channel.Flow.{writes}

pub record CtrlConn : Type 0 where
  pub conn : Conn
  pub heap : List Channel  -- every channel made here; a pointer is a position
  pub channels : List (ℕ × ℕ)  -- id and pointer
  pub next_id : ℕ
  pub new_ch : List ℕ  -- pointers in the buffered Go channel newCh
  pub read_err : Option FrameError
  pub done : Bool
  pub last_activity : ℕ
  pub closing : List ℕ  -- pointers on which `go ch.Close()` was started

unfoldable pub new_ctrl_conn : Conn → ℕ → CtrlConn
new_ctrl_conn conn now = record {
  conn = conn;
  heap = [];
  channels = [];
  next_id = 1;
  new_ch = [];
  read_err = none;
  done = false;
  last_activity = now;
  closing = [];
}

-- Go's map: a write replaces the entry of that key.
pub lookup : ℕ → List (ℕ × ℕ) → Option ℕ
lookup k [] = none
lookup k ((j, p) ∷ m) = if j == k then some p else lookup k m

pub delete : ℕ → List (ℕ × ℕ) → List (ℕ × ℕ)
delete k [] = []
delete k ((j, p) ∷ m) = let rest = delete k m in if j == k then rest else (j, p) ∷ rest

pub store : ℕ → ℕ → List (ℕ × ℕ) → List (ℕ × ℕ)
unfolding delete
store k p m = (k, p) ∷ delete k m

-- A change of the object at a pointer; the callers hold pointers to objects that exist.
pub update : ℕ → (Channel → Channel) → List Channel → List Channel
update p f [] = []
update zero f (ch ∷ chs) = f ch ∷ chs
update (suc p) f (ch ∷ chs) = ch ∷ update p f chs

unfoldable pub modify : ℕ → (Channel → Channel) → CtrlConn → CtrlConn
unfolding update
modify p f cc = record cc { heap = update p f cc.heap }

-- sendFrame: one write under wmu.
unfoldable pub send_frame : ℕ → Bytes → Action CtrlConn FrameError (Unit {0})
send_frame typ payload cc =
    let (r, conn) = write_frame typ payload cc.conn in (r, record cc { conn = conn })

unfoldable pub add_channel : ℕ → Bytes → CtrlConn → CtrlConn × ℕ
unfolding store
add_channel id target cc = (
  record cc {
    heap = cc.heap ++ (new_channel id target ∷ []);
    channels = store id (length cc.heap) cc.channels;
  },
  length cc.heap,
)

unfoldable pub remove_channel : ℕ → CtrlConn → CtrlConn
unfolding delete
remove_channel id cc = record cc { channels = delete id cc.channels }

-- OpenChannel. The id is a uint32, and the length that it sends a uint16.
unfoldable pub open_channel : Bytes → Action CtrlConn FrameError ℕ
unfolding add_channel send_frame remove_channel
open_channel target cc =
    let id = cc.next_id in
    let (cc1, p) = add_channel id target (record cc { next_id = (id + 1) % 2 ^ 32 }) in
    let (r, cc2) = send_frame frame_new_channel (put_u32 id ++ put_text target) cc1 in
    elim r [ ok _ ↦ (ok p, cc2) | err e ↦ (err e, remove_channel id cc2) ]

-- How handleFrame ends. `newCh <- ch` blocks while the buffer of 64 is full, and a slice
-- expression out of range panics.
pub data Handled : Type 0 where
  handled : CtrlConn → Handled
  stalled : CtrlConn → ℕ → Handled
  panics : Handled

abbrev pub new_ch_capacity : ℕ
new_ch_capacity = 64

pub enqueue : CtrlConn × ℕ → Handled
enqueue (cc, p) =
    if ltb (length cc.new_ch) new_ch_capacity
    then handled (record cc { new_ch = cc.new_ch ++ (p ∷ []) })
    else stalled cc p

-- `payload[6 : 6+targetLen]`: the sum is a uint16, and the slice panics below its lower bound.
pub slice_target : Bytes → ℕ → Option Bytes
slice_target payload target_len =
    let high = (6 + target_len) % 2 ^ 16 in
    if ltb high 6 then none else some (drop 6 (take high payload))

unfoldable pub handle_new_channel : Bytes → CtrlConn → Handled
unfolding enqueue slice_target add_channel
handle_new_channel payload cc =
    if ltb (length payload) 6
    then handled cc
    else let id = get_u32 payload in
      let target_len = get_u16 (drop 4 payload) in
      if ltb (length payload) (6 + target_len)
      then handled cc
      else elim (slice_target payload target_len) [
        | none ↦ panics
        | some target ↦ enqueue (add_channel id target cc)
      ]

pub push : ℕ → Bytes → CtrlConn → CtrlConn
unfolding modify
push p new cc = elim (get_elem? cc.heap p) [
  | none ↦ cc
  | some ch ↦
      let (ch', overflow) = push_data new ch in
      record cc {
        heap = update p (λ _. ch') cc.heap;
        closing = if overflow then cc.closing ++ (p ∷ []) else cc.closing;
      }
]

-- The handlers that look a channel up by the id in front of the payload.
pub on_channel : ℕ → (ℕ → CtrlConn → CtrlConn) → Bytes → CtrlConn → CtrlConn
unfolding lookup
on_channel least act payload cc =
    if ltb (length payload) least
    then cc
    else elim (lookup (get_u32 payload) cc.channels) [ none ↦ cc | some p ↦ act p cc ]

unfoldable pub handle_channel_data : Bytes → CtrlConn → CtrlConn
unfolding on_channel push
handle_channel_data payload = on_channel 4 (λ p. push p (drop 4 payload)) payload

unfoldable pub handle_channel_close : Bytes → CtrlConn → CtrlConn
unfolding on_channel modify
handle_channel_close payload = on_channel 4 (λ p. modify p (set_error io_eof)) payload

unfoldable pub handle_window_update : Bytes → CtrlConn → CtrlConn
unfolding on_channel modify
handle_window_update payload =
    on_channel 8 (λ p. modify p (add_send_window (get_u32 (drop 4 payload)))) payload

-- The result of the write is ignored.
unfoldable pub handle_ping : Bytes → CtrlConn → CtrlConn
unfolding send_frame
handle_ping payload cc = (send_frame frame_pong payload cc).1

unfoldable pub handle_frame : Frame → CtrlConn → Handled
handle_frame f cc =
    if f.type == frame_new_channel
    then handle_new_channel f.payload cc
    else if f.type == frame_channel_data
    then handled (handle_channel_data f.payload cc)
    else if f.type == frame_channel_close
    then handled (handle_channel_close f.payload cc)
    else if f.type == frame_window_update
    then handled (handle_window_update f.payload cc)
    else if f.type == frame_ping
    then handled (handle_ping f.payload cc)
    else handled cc

-- closeAll: every channel of the map gets io.EOF and leaves the map.
pub set_errors : List (ℕ × ℕ) → List Channel → List Channel
unfolding update
set_errors [] heap = heap
set_errors ((id, p) ∷ m) heap = set_errors m (update p (set_error io_eof) heap)

unfoldable pub close_all : CtrlConn → CtrlConn
unfolding set_errors
close_all cc = record cc { heap = set_errors cc.channels cc.heap; channels = [] }

-- Close: nothing can be read or written afterwards.
unfoldable pub close : CtrlConn → CtrlConn
unfolding close_all
close cc =
    let cc' = close_all cc in record cc' { conn = record cc'.conn { input = []; writes = 0 } }

-- One turn of readLoop at time `now`. ReadFrame wraps every error, so its error is never io.EOF
-- itself and readErr is always set.
unfoldable pub read_loop_turn : ℕ → CtrlConn → Handled
unfolding close_all
read_loop_turn now cc =
    let (r, conn) = read_frame cc.conn in
    let cc' = record cc { conn = conn } in
    elim r [
      | ok frame ↦ handle_frame frame (record cc' { last_activity = now })
      | err e ↦
          let closed = close_all cc' in handled (record closed { read_err = some e; done = true })
    ]
