-- ===== src/Relay/CtrlConn/NewChannel.antt =====
-- Opening a channel over relay/ctrlconn.go: the frame of OpenChannel and the peer's handler.
use tunnelmanager.Prelude.{
  ◌%◌, ◌++◌, ◌+◌, ◌<◌, ◌^◌, ◌↔◌, ◌∷◌, ◌≡◌, ◌≤◌, All, Bytes, IsByte, IsU32, [], arith, drop, get_u16,
  length, put_u32, refl, some, suc, take, zero, ℕ,
}
use tunnelmanager.Relay.Register.{put_text}
use tunnelmanager.Relay.CtrlConn.{
  CtrlConn, add_channel, panics, enqueue, slice_target, handle_new_channel,
}

abbrev new_channel_payload : ℕ → Bytes → Bytes
new_channel_payload id target = put_u32 id ++ put_text target

length_payload :
    (id : ℕ) (target : Bytes) → length (new_channel_payload id target) ≡ 6 + length target
length_payload id target = omega arith

take-length : (xs : Bytes) → take (length xs) xs ≡ xs
take-length [] = refl
take-length (x ∷ xs) = rw (take-length xs)

slice_target_all :
    (id : ℕ) (target : Bytes)
    → length target < 65530
    → slice_target (new_channel_payload id target) (length target) ≡ some target
unfolding slice_target
slice_target_all id target h =
    let e : (6 + length target) % 2 ^ 16 ≡ suc (suc (suc (suc (suc (suc (length target)))))) =
      omega arith in
    rw e (rw (take-length target) (ground arith))

-- Handling the payload that OpenChannel sends, for a target below 65530 bytes, adds a channel of
-- that id and target and hands it to the accept queue.
pub open_accepted :
    (id : ℕ) (target : Bytes) (c : CtrlConn)
    → IsU32 id
    → length target < 65530
    → handle_new_channel (new_channel_payload id target) c ≡ enqueue (add_channel id target c)
unfolding handle_new_channel
open_accepted id target c hi ht = ground (arith, slice_target_all id target ht)

u16_bound : (xs : Bytes) → All IsByte xs → get_u16 xs < 65536
u16_bound [] b = omega arith
u16_bound (_ ∷ []) b = omega arith
u16_bound (x ∷ y ∷ xs) b = omega arith

drop-All : (n : ℕ) (xs : Bytes) → All IsByte xs → All IsByte (drop n xs)
drop-All zero xs b = b
drop-All (suc n) [] b = tt
drop-All (suc n) (x ∷ xs) b = drop-All n xs b.1

-- The handler of a NewChannel frame panics exactly when the payload holds all announced bytes and
-- the 16-bit length field is at least 65530.
pub handle_new_channel_panics :
    (payload : Bytes) (c : CtrlConn)
    → All IsByte payload
    → (handle_new_channel payload c ≡ panics)
      ↔ ((6 + get_u16 (drop 4 payload) ≤ length payload) × (65530 ≤ get_u16 (drop 4 payload)))
unfolding handle_new_channel slice_target enqueue
handle_new_channel_panics payload c b =
    ground (arith, u16_bound (drop 4 payload) (drop-All 4 payload b))
