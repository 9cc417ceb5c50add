-- ===== src/Relay/CtrlConn/Invariant.antt =====
-- The objects and the map of a control connection (relay/ctrlconn.go).
pub mod Steps
use tunnelmanager.Prelude.{
  ◌++◌, ◌==◌, ◌∙◌, ◌∷◌, ◌≡◌, ◌≤◌, ==_iff, All, All-append, Bool-cases, Bytes, List, [], arith,
  get_elem?, if◌then◌else◌, inl, inr, length, length-append, ltb, ltb→lt, refl, some, suc, zero, ℕ,
}
use tunnelmanager.Relay.CtrlConn.{
  CtrlConn, update, modify, new_ch_capacity, new_ctrl_conn, delete, store, send_frame, add_channel,
  remove_channel, Handled, handled, stalled, panics, enqueue, set_errors, close_all,
}
use tunnelmanager.Relay.Channel.{
  max_receive_buffer, Channel, ChannelError, io_eof, new_channel, push_data, set_error,
  add_send_window,
}
use tunnelmanager.Relay.Conn.{Conn}

-- Each map entry points to an object of that id, and no object holds more than its buffer allows.
abbrev pub Entry : List Channel → ℕ × ℕ → Type 0
Entry heap (id, p) = (ch : Channel) × (get_elem? heap p ≡ some ch) × (ch.id ≡ id)

abbrev pub Bounded : Channel → Type 0
Bounded ch = length ch.rb ≤ max_receive_buffer

pub record Inv (c : CtrlConn) : Type 0 where
  pub entries : All (Entry c.heap) c.channels
  pub bounded : All Bounded c.heap
  pub queue : length c.new_ch ≤ new_ch_capacity

-- An operation on an object that keeps its id and its bound.
pub record Keeps (f : Channel → Channel) : Type 0 where
  pub same_id : (ch : Channel) → (f ch).id ≡ ch.id
  pub stays_bounded : (ch : Channel) → Bounded ch → Bounded (f ch)

pub get_elem?-update :
    (p q : ℕ) (f : Channel → Channel) (heap : List Channel) (ch : Channel)
    → get_elem? heap q ≡ some ch
    → get_elem? (update p f heap) q ≡ some (if p == q then f ch else ch)
unfolding update
get_elem?-update p q f [] ch e = cc
get_elem?-update zero zero f (x ∷ heap) ch e = ground arith
get_elem?-update zero (suc q) f (x ∷ heap) ch e = ground arith
get_elem?-update (suc p) zero f (x ∷ heap) ch e = ground arith
get_elem?-update (suc p) (suc q) f (x ∷ heap) ch e =
    ground (arith, get_elem?-update p q f heap ch e)

pub update-Bounded :
    (p : ℕ) (f : Channel → Channel) (heap : List Channel)
    → ((ch : Channel) → get_elem? heap p ≡ some ch → Bounded ch → Bounded (f ch))
    → All Bounded heap
    → All Bounded (update p f heap)
unfolding update
update-Bounded p f [] k b = tt
update-Bounded zero f (x ∷ heap) k b = (k x refl b.0, b.1)
update-Bounded (suc p) f (x ∷ heap) k b = (b.0, update-Bounded p f heap k b.1)

pub update-Entry :
    (p : ℕ) (f : Channel → Channel) (heap : List Channel) (m : List (ℕ × ℕ))
    → ((ch : Channel) → get_elem? heap p ≡ some ch → (f ch).id ≡ ch.id)
    → All (Entry heap) m
    → All (Entry (update p f heap)) m
update-Entry p f heap [] k h = tt
update-Entry p f heap ((id, q) ∷ m) k ((ch, e, i), h) = (
  (
    (if p == q then f ch else ch),
    get_elem?-update p q f heap ch e,
    elim (Bool-cases (p == q)) [
      | inl t ↦ rw t (k ch (rw ((==_iff p q).0 t) e) ∙ i)
      | inr t ↦ rw t i
    ],
  ),
  update-Entry p f heap m k h,
)

pub modify-Inv :
    (p : ℕ) (f : Channel → Channel) (c : CtrlConn) → Keeps f → Inv c → Inv (modify p f c)
unfolding modify
modify-Inv p f c k v = record {
  entries = update-Entry p f c.heap c.channels (λ ch _. k.same_id ch) v.entries;
  bounded = update-Bounded p f c.heap (λ ch _. k.stays_bounded ch) v.bounded;
  queue = v.queue;
}

pub new_ctrl_conn-Inv : (conn : Conn) (now : ℕ) → Inv (new_ctrl_conn conn now)
unfolding new_ctrl_conn
new_ctrl_conn-Inv conn now = record { entries = tt; bounded = tt; queue = omega arith }

delete-All : (P : ℕ × ℕ → Type 0) (k : ℕ) (m : List (ℕ × ℕ)) → All P m → All P (delete k m)
unfolding delete
delete-All P k [] h = tt
delete-All P k ((j, p) ∷ m) h = elim (Bool-cases (j == k)) [
  | inl t ↦ rw t (delete-All P k m h.1)
  | inr t ↦ rw t (h.0, delete-All P k m h.1)
]

get_elem?-append :
    (heap : List Channel) (x ch : Channel) (q : ℕ)
    → get_elem? heap q ≡ some ch
    → get_elem? (heap ++ (x ∷ [])) q ≡ some ch
get_elem?-append [] x ch q e = cc
get_elem?-append (y ∷ heap) x ch zero e = e
get_elem?-append (y ∷ heap) x ch (suc q) e = get_elem?-append heap x ch q e

get_elem?-last :
    (heap : List Channel) (x : Channel) → get_elem? (heap ++ (x ∷ [])) (length heap) ≡ some x
get_elem?-last [] x = refl
get_elem?-last (y ∷ heap) x = get_elem?-last heap x

grown-Entry :
    (heap : List Channel) (x : Channel) (m : List (ℕ × ℕ))
    → All (Entry heap) m
    → All (Entry (heap ++ (x ∷ []))) m
grown-Entry heap x [] h = tt
grown-Entry heap x ((id, q) ∷ m) ((ch, e, i), h) =
    ((ch, get_elem?-append heap x ch q e, i), grown-Entry heap x m h)

pub add_channel-Inv :
    (id : ℕ) (target : Bytes) (c : CtrlConn) → Inv c → Inv (add_channel id target c).0
unfolding add_channel store new_channel
add_channel-Inv id target c v = record {
  entries = (
    (new_channel id target, get_elem?-last c.heap (new_channel id target), refl),
    delete-All (Entry (c.heap ++ (new_channel id target ∷ []))) id c.channels
        (grown-Entry c.heap (new_channel id target) c.channels v.entries),
  );
  bounded = All-append Bounded c.heap (new_channel id target ∷ []) v.bounded (omega arith, tt);
  queue = v.queue;
}

pub send_frame-Inv :
    (typ : ℕ) (payload : Bytes) (c : CtrlConn) → Inv c → Inv (send_frame typ payload c).1
unfolding send_frame
send_frame-Inv typ payload c v = record {
  entries = v.entries;
  bounded = v.bounded;
  queue = v.queue;
}

pub remove_channel-Inv : (id : ℕ) (c : CtrlConn) → Inv c → Inv (remove_channel id c)
unfolding remove_channel
remove_channel-Inv id c v = record {
  entries = delete-All (Entry c.heap) id c.channels v.entries;
  bounded = v.bounded;
  queue = v.queue;
}

pub set_error-Keeps : (e : ChannelError) → Keeps (set_error e)
unfolding set_error
set_error-Keeps e = record { same_id = λ ch. refl; stays_bounded = λ ch b. b }

pub add_send_window-Keeps : (n : ℕ) → Keeps (add_send_window n)
unfolding add_send_window
add_send_window-Keeps n = record { same_id = λ ch. refl; stays_bounded = λ ch b. b }

set_errors-Inv :
    (gone : List (ℕ × ℕ)) (heap : List Channel)
    → All Bounded heap
    → All Bounded (set_errors gone heap)
unfolding set_errors
set_errors-Inv [] heap b = b
set_errors-Inv ((id, p) ∷ gone) heap b =
    set_errors-Inv gone _ (
      update-Bounded p (set_error io_eof) heap (λ ch _. (set_error-Keeps io_eof).stays_bounded ch)
        b)

pub close_all-Inv : (c : CtrlConn) → Inv c → Inv (close_all c)
unfolding close_all
close_all-Inv c v = record {
  entries = tt;
  bounded = set_errors-Inv c.channels c.heap v.bounded;
  queue = v.queue;
}

pub push_data-Keeps : (new : Bytes) → Keeps (λ ch. (push_data new ch).0)
unfolding push_data
push_data-Keeps new = record {
  same_id = λ ch. ground arith;
  stays_bounded = λ ch b. ground (arith, length-append ch.rb new);
}

-- What holds of the connection that a handler leaves, when it leaves one.
abbrev pub HandledInv : Handled → Type 0
HandledInv (handled c) = Inv c
HandledInv (stalled c p) = Inv c
HandledInv panics = Unit

pub enqueue-Inv : (c : CtrlConn) (p : ℕ) → Inv c → HandledInv (enqueue (c, p))
unfolding enqueue
enqueue-Inv c p v = elim (Bool-cases (ltb (length c.new_ch) new_ch_capacity)) [
  | inl t ↦ rw t (record {
    entries = v.entries;
    bounded = v.bounded;
    queue = omega (arith, length-append c.new_ch (p ∷ []), ltb→lt _ _ t);
  })
  | inr t ↦ rw t v
]
