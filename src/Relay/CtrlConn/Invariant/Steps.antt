-- ===== src/Relay/CtrlConn/Invariant/Steps.antt =====
-- Every handler and every call of a control connection keeps its invariant.
use tunnelmanager.Prelude.{
  ◌+◌, ◌==◌, ◌∙◌, ◌∷◌, ◌≡◌, All, Bool-cases, Bytes, List, Option, Option-cases, Result, [], ap,
  arith, drop, err, get_elem?, get_u16, get_u32, if_both, inl, inr, length, ltb, none, ok, some,
  some-injective, suc, sym, true, zero, ℕ,
}
use tunnelmanager.Relay.CtrlConn.{
  CtrlConn, lookup, update, on_channel, handle_new_channel, push, handle_frame, add_channel,
  handled, panics, enqueue, slice_target, handle_channel_data, handle_channel_close,
  handle_window_update, handle_ping, close_all, read_loop_turn, modify,
}
use tunnelmanager.Relay.Channel.{Channel, push_data, io_eof, set_error, add_send_window}
use tunnelmanager.Relay.CtrlConn.Invariant.{
  Bounded, Inv, update-Bounded, update-Entry, push_data-Keeps, HandledInv, modify-Inv,
  add_channel-Inv, send_frame-Inv, set_error-Keeps, add_send_window-Keeps, close_all-Inv,
  enqueue-Inv,
}
use tunnelmanager.Relay.Frame.{
  Frame, frame_ping, frame_pong, frame_new_channel, frame_channel_data, frame_channel_close,
  frame_window_update, FrameError, read_frame,
}
use tunnelmanager.Relay.Conn.{Conn}

get_elem?-All :
    (heap : List Channel) (p : ℕ) (ch : Channel)
    → All Bounded heap
    → get_elem? heap p ≡ some ch
    → Bounded ch
get_elem?-All [] p ch b e = cc
get_elem?-All (x ∷ heap) zero ch b e = ground arith
get_elem?-All (x ∷ heap) (suc p) ch b e = get_elem?-All heap p ch b.1 e

on_channel-Inv :
    (least : ℕ) (act : ℕ → CtrlConn → CtrlConn) (payload : Bytes) (c : CtrlConn)
    → ((p : ℕ) → Inv c → Inv (act p c))
    → Inv c
    → Inv (on_channel least act payload c)
unfolding on_channel
on_channel-Inv least act payload c k v = elim (Bool-cases (ltb (length payload) least)) [
  | inl t ↦ rw t v
  | inr t ↦ rw t (elim (Option-cases (lookup (get_u32 payload) c.channels)) [
    | inl e ↦ rw e v
    | inr (p, e) ↦ rw e (k p v)
  ])
]

-- The object at a pointer is replaced by one of the same id within the bound.
replace-Inv :
    (p : ℕ) (ch new : Channel) (c : CtrlConn)
    → get_elem? c.heap p ≡ some ch
    → new.id ≡ ch.id
    → Bounded new
    → Inv c
    → Inv (record c { heap = update p (λ _. new) c.heap })
replace-Inv p ch new c e i b v = record {
  entries =
      update-Entry p (λ _. new) c.heap c.channels
        (λ x ex. i ∙ ap (λ (y : Channel). y.id) (some-injective ch x (sym e ∙ ex))) v.entries;
  bounded = update-Bounded p (λ _. new) c.heap (λ x _ _. b) v.bounded;
  queue = v.queue;
}

push-Inv : (p : ℕ) (new : Bytes) (c : CtrlConn) → Inv c → Inv (push p new c)
unfolding push
push-Inv p new c v = elim (Option-cases (get_elem? c.heap p)) [
  | inl e ↦ rw (e, push) v
  | inr (ch, e) ↦
      let k = push_data-Keeps new in
      let w =
        replace-Inv p ch (push_data new ch).0 c e (k.same_id ch)
          (k.stays_bounded ch (get_elem?-All c.heap p ch v.bounded e)) v in
      rw (e, push) (record { entries = w.entries; bounded = w.bounded; queue = w.queue })
]

handle_new_channel-Inv :
    (payload : Bytes) (c : CtrlConn) → Inv c → HandledInv (handle_new_channel payload c)
unfolding handle_new_channel
handle_new_channel-Inv payload c v = if_both HandledInv (ltb (length payload) 6) v (
    if_both HandledInv (ltb (length payload) (6 + get_u16 (drop 4 payload))) v
      (go (slice_target payload (get_u16 (drop 4 payload)))))
  where
    go :
        (o : Option Bytes)
        → HandledInv (elim o [
          | none ↦ panics
          | some target ↦ enqueue (add_channel (get_u32 payload) target c)
        ])
    go none = tt
    go (some target) = enqueue-Inv _ _ (add_channel-Inv (get_u32 payload) target c v)

-- A frame of any type and content, well formed or not, keeps the invariant.
pub handle_frame-Inv : (f : Frame) (c : CtrlConn) → Inv c → HandledInv (handle_frame f c)
unfolding handle_frame handle_channel_data handle_channel_close handle_window_update handle_ping
handle_frame-Inv f c v =
    if_both HandledInv (f.type == frame_new_channel) (handle_new_channel-Inv f.payload c v) (
      if_both HandledInv (f.type == frame_channel_data)
        (on_channel-Inv 4 (λ p. push p (drop 4 f.payload)) f.payload c
          (λ p. push-Inv p (drop 4 f.payload) c) v)
        (if_both HandledInv (f.type == frame_channel_close)
          (on_channel-Inv 4 (λ p. modify p (set_error io_eof)) f.payload c
            (λ p. modify-Inv p _ c (set_error-Keeps io_eof)) v)
          (if_both HandledInv (f.type == frame_window_update)
            (on_channel-Inv 8 (λ p. modify p (add_send_window (get_u32 (drop 4 f.payload))))
              f.payload c
              (λ p. modify-Inv p _ c (add_send_window-Keeps (get_u32 (drop 4 f.payload)))) v)
            (if_both HandledInv (f.type == frame_ping) (send_frame-Inv frame_pong f.payload c v)
              v))))

-- A turn of the read loop, on any input and also when it ends the loop, keeps the channel map
-- pointing to channels of the right ids, every receive buffer within its cap and the queue of new
-- channels within its capacity, whether it goes on or waits to hand over a channel; nothing is
-- said of a turn that panics.
pub read_loop_turn-Inv : (now : ℕ) (c : CtrlConn) → Inv c → HandledInv (read_loop_turn now c)
unfolding read_loop_turn
read_loop_turn-Inv now c v = go (read_frame c.conn)
  where
    go :
        (r : Result FrameError Frame × Conn)
        → HandledInv (elim r.0 [
          | ok frame ↦ handle_frame frame (record c { conn = r.1; last_activity = now })
          | err e ↦
              handled
                (record (close_all (record c { conn = r.1 })) { read_err = some e; done = true })
        ])
    go (ok frame, conn) =
        handle_frame-Inv frame _
          (record { entries = v.entries; bounded = v.bounded; queue = v.queue })
    go (err e, conn) =
        let w =
          close_all-Inv (record c { conn = conn })
            (record { entries = v.entries; bounded = v.bounded; queue = v.queue }) in
        record { entries = w.entries; bounded = w.bounded; queue = w.queue }
