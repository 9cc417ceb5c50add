-- ===== src/Relay/CtrlConn/Calls/Write.antt =====
-- Write of relay/stream.go: its loop ends, and what it says it sent.
use tunnelmanager.Prelude.{
  ◌++◌, ◌+◌, ◌<◌, ◌∙◌, ◌∷◌, ◌≡◌, ◌≤◌, Bytes, Option-cases, Result, [], ap, arith, drop, drop-drop,
  err, get_elem?, if_both, inl, inr, length, length-drop, length-take, ok, put_u32, refl, suc, zero,
  ℕ,
}
use tunnelmanager.Relay.CtrlConn.Calls.{
  write, WriteCall, sent, failed, waits, out_of_fuel, write_turn, write_loop,
}
use tunnelmanager.Relay.CtrlConn.{CtrlConn, modify, send_frame}
use tunnelmanager.Relay.Frame.{frame_channel_data, FrameError}
use tunnelmanager.Relay.Channel.{write_ended, Channel, WriteTurn, send, take_chunk}

-- Of the bytes `b`: success reports all of them, a failure some of them, and a call that waits has
-- exactly the unreported ones left. Running out of fuel is none of these.
abbrev pub Accounted : Bytes → WriteCall → Type 0
Accounted b (sent n c) = n ≡ length b
Accounted b (failed n c) = n ≤ length b
Accounted b (waits n rest c) = (rest ≡ drop n b) × (n < length b)
Accounted b out_of_fuel = ⊥

chunk_progress :
    (ch ch' : Channel) (b chunk : Bytes)
    → 0 < length b
    → take_chunk ch b ≡ send chunk ch'
    → (0 < length chunk) × (length chunk ≤ length b)
unfolding take_chunk
chunk_progress ch ch' b chunk h e = ground (arith, length-take ch.send_window b)

-- A turn that goes on has reported its chunk and dropped it from what is left.
write_turn-Accounted :
    (whole : Bytes) (p count : ℕ) (b : Bytes) (t : WriteTurn)
    (again : ℕ → Bytes → CtrlConn → WriteCall) (c : CtrlConn)
    → b ≡ drop count whole
    → count < length whole
    → ((chunk : Bytes) (ch : Channel)
        → t ≡ send chunk ch
        → (c' : CtrlConn)
        → Accounted whole (again (count + length chunk) (drop (length chunk) b) c'))
    → Accounted whole (write_turn p count b t again c)
unfolding write_turn
write_turn-Accounted whole p count b WriteTurn.wait again c e h k = (e, h)
write_turn-Accounted whole p count b WriteTurn.refuse again c e h k = omega arith
write_turn-Accounted whole p count b (send chunk ch) again c e h k =
    go (send_frame frame_channel_data (put_u32 ch.id ++ chunk) (modify p (λ _. ch) c))
  where
    go :
        (r : Result FrameError (Unit {0}) × CtrlConn)
        → Accounted whole (elim r.0 [
          | ok _ ↦ again (count + length chunk) (drop (length chunk) b) r.1
          | err _ ↦ failed count r.1
        ])
    go (ok _, c') = k chunk ch refl c'
    go (err x, c') = omega arith

write_loop-Accounted :
    (whole : Bytes) (fuel p count : ℕ) (b : Bytes) (c : CtrlConn)
    → b ≡ drop count whole
    → count ≤ length whole
    → length b ≤ fuel
    → Accounted whole (write_loop fuel p count b c)
unfolding write_loop
write_loop-Accounted whole fuel p count [] c e k h =
    omega (arith, ap length e, length-drop count whole)
write_loop-Accounted whole zero p count (x ∷ b) c e k h = absurd (omega arith)
write_loop-Accounted whole (suc fuel) p count (x ∷ b) c e k h =
    let more : count < length whole = omega (arith, ap length e, length-drop count whole) in
    elim (Option-cases (get_elem? c.heap p)) [
      | inl none_there ↦ rw (none_there, write_loop) k
      | inr (ch, there) ↦
          rw (there, write_loop)
            (write_turn-Accounted whole p count (x ∷ b) (take_chunk ch (x ∷ b)) (write_loop fuel p)
              c e more
              (λ chunk ch' t c'.
                let (some_sent, fits) = chunk_progress ch ch' (x ∷ b) chunk (omega arith) t in
                let sizes = length-drop (length chunk) (x ∷ b) in
                write_loop-Accounted whole fuel p (count + length chunk)
                  (drop (length chunk) (x ∷ b)) c'
                  (ap (drop (length chunk)) e ∙ drop-drop count (length chunk) whole)
                  (omega (arith, ap length e, length-drop count whole)) (omega arith)))
    ]

-- Write of a channel never runs out of turns: it reports all bytes on success, at most all on
-- failure, and when it waits for credit it holds exactly the bytes not yet reported, of which
-- there is at least one.
pub write-Accounted : (p : ℕ) (b : Bytes) (c : CtrlConn) → Accounted b (write p b c)
unfolding write
write-Accounted p b c = elim (Option-cases (get_elem? c.heap p)) [
  | inl e ↦ rw (e, write) (omega arith)
  | inr (ch, e) ↦
      rw (e, write)
        (if_both (Accounted b) (write_ended ch.status) (omega arith)
          (write_loop-Accounted b (length b) p 0 b c refl (omega arith) (omega arith)))
]
