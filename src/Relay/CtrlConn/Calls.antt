-- ===== src/Relay/CtrlConn/Calls.antt =====
-- The calls that a channel's owner makes: Read, Write, CloseWrite and Close of relay/stream.go,
-- AcceptChannel and KeepAlive of relay/ctrlconn.go.
pub mod Write
use tunnelmanager.Prelude.{
  ◌&&◌, ◌++◌, ◌+◌, ◌-◌, ◌/◌, ◌^◌, ◌∷◌, Action, Bool, Bytes, Option, [], drop, err, get_elem?,
  if◌then◌else◌, length, ltb, none, ok, put_u32, some, suc, zero, ℕ,
}
use tunnelmanager.Relay.CtrlConn.{CtrlConn, modify, send_frame, remove_channel, close}
use tunnelmanager.Relay.Frame.{
  frame_ping, frame_channel_data, frame_channel_close, frame_window_update, FrameError,
}
use tunnelmanager.Relay.Channel.{
  ChannelStatus, ch_write_closed, ch_closed, write_ended, is_closed, ChannelError, Channel,
  WriteTurn, send, take_chunk, ReadTurn, got, read_turn,
}

-- sendWindowUpdate; the result of the write is ignored.
unfoldable pub send_window_update : ℕ → ℕ → CtrlConn → CtrlConn
send_window_update id delta cc = (send_frame frame_window_update (put_u32 id ++ put_u32 delta) cc).1

pub data ReadCall : Type 0 where
  blocks : ReadCall
  fails : ChannelError → ReadCall
  returns : Bytes → CtrlConn → ReadCall

after_read : ℕ → ReadTurn → CtrlConn → ReadCall
unfolding send_window_update
after_read p ReadTurn.wait cc = blocks
after_read p (ReadTurn.fail e) cc = fails e
after_read p (got b ch) cc =
    let cc' = modify p (λ _. ch) cc in
    returns b (if ltb 0 (length b) then send_window_update ch.id (length b) cc' else cc')

-- Read into a buffer of `n` bytes, up to the point where it returns or starts to wait.
unfoldable pub read : ℕ → ℕ → CtrlConn → ReadCall
unfolding after_read
read p n cc = elim (get_elem? cc.heap p) [
  | none ↦ blocks
  | some ch ↦ after_read p (read_turn n ch) cc
]

-- Write returns the count of bytes sent with an error or without one, or waits with the bytes that
-- are left.
pub data WriteCall : Type 0 where
  sent : ℕ → CtrlConn → WriteCall
  failed : ℕ → CtrlConn → WriteCall
  waits : ℕ → Bytes → CtrlConn → WriteCall
  out_of_fuel : WriteCall

-- One turn of the loop over the object `ch`; `again` is the rest of the loop.
write_turn : ℕ → ℕ → Bytes → WriteTurn → (ℕ → Bytes → CtrlConn → WriteCall) → CtrlConn → WriteCall
write_turn p count b WriteTurn.wait again cc = waits count b cc
write_turn p count b WriteTurn.refuse again cc = failed count cc
write_turn p count b (send chunk ch) again cc =
    let (r, cc') = send_frame frame_channel_data (put_u32 ch.id ++ chunk) (modify p (λ _. ch) cc) in
    elim r [
      | ok _ ↦ again (count + length chunk) (drop (length chunk) b) cc'
      | err _ ↦ failed count cc'
    ]

-- Each turn that goes on sends at least one byte, so `length b` turns are enough.
write_loop : ℕ → ℕ → ℕ → Bytes → CtrlConn → WriteCall
unfolding write_turn
write_loop fuel p count [] cc = sent count cc
write_loop zero p count (x ∷ b) cc = out_of_fuel
write_loop (suc fuel) p count (x ∷ b) cc = elim (get_elem? cc.heap p) [
  | none ↦ failed count cc
  | some ch ↦ write_turn p count (x ∷ b) (take_chunk ch (x ∷ b)) (write_loop fuel p) cc
]

unfoldable pub write : ℕ → Bytes → CtrlConn → WriteCall
unfolding write_loop
write p b cc = elim (get_elem? cc.heap p) [
  | none ↦ failed 0 cc
  | some ch ↦ if write_ended ch.status then failed 0 cc else write_loop (length b) p 0 b cc
]

set_status : ChannelStatus → Channel → Channel
set_status s ch = record ch { status = s }

unfoldable pub close_write : ℕ → Action CtrlConn FrameError (Unit {0})
unfolding set_status
close_write p cc = elim (get_elem? cc.heap p) [
  | none ↦ (ok tt, cc)
  | some ch ↦
      if write_ended ch.status
      then (ok tt, cc)
      else send_frame frame_channel_close (put_u32 ch.id) (modify p (set_status ch_write_closed) cc)
]

unfoldable pub close_channel : ℕ → Action CtrlConn FrameError (Unit {0})
unfolding set_status
close_channel p cc = elim (get_elem? cc.heap p) [
  | none ↦ (ok tt, cc)
  | some ch ↦
      if is_closed ch.status
      then (ok tt, cc)
      else send_frame frame_channel_close (put_u32 ch.id)
          (remove_channel ch.id (modify p (set_status ch_closed) cc))
]

pub data AcceptCall : Type 0 where
  blocks : AcceptCall
  accepted : ℕ → CtrlConn → AcceptCall
  ends : Option FrameError → AcceptCall

-- select chooses freely where both a channel and the end are at hand: `pick` says which. The
-- error is readErr, or io.EOF (`none`) where that is not set.
unfoldable pub accept_channel : Bool → CtrlConn → AcceptCall
accept_channel pick cc = elim cc.new_ch [
  | [] ↦ if cc.done then ends cc.read_err else blocks
  | p ∷ rest ↦
      if cc.done && pick then ends cc.read_err else accepted p (record cc { new_ch = rest })
]

put_u64 : ℕ → Bytes
put_u64 n = put_u32 (n / 2 ^ 32) ++ put_u32 n

pub data KeepAliveTurn : Type 0 where
  pinged : CtrlConn → KeepAliveTurn
  dead : CtrlConn → KeepAliveTurn

-- One tick of KeepAlive at time `now`; a timeout of 0 turns the check off.
unfoldable pub keep_alive_turn : ℕ → ℕ → CtrlConn → KeepAliveTurn
unfolding put_u64
keep_alive_turn timeout now cc =
    if ltb 0 timeout && ltb timeout (now - cc.last_activity)
    then dead (close cc)
    else pinged (send_frame frame_ping (put_u64 now) cc).1
