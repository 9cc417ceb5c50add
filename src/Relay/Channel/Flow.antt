-- ===== src/Relay/Channel/Flow.antt =====
-- Flow control of relay/stream.go between the two ends of one channel.
use tunnelmanager.Prelude.{
  ◌++◌, ◌+◌, ◌-◌, ◌<◌, ◌∙◌, ◌∷◌, ◌≡◌, ◌≤◌, Bytes, List, [], ap, append-nil, append_assoc, arith,
  false, length, length-append, length-take, le→ltb, ltb, none, sym, take-append-drop, ℕ,
}
use tunnelmanager.Relay.Channel.{
  default_send_window, Channel, new_channel, chunk_of, send, take_chunk, got, read_turn, push_data,
  add_send_window, max_receive_buffer,
}

-- The sending end, the data frames under way to the other end, that end, and the window updates
-- under way back. `written` and `delivered` are the bytes that Write took and that Read returned.
pub record Flow : Type 0 where
  pub sender : Channel
  pub data_frames : List Bytes
  pub receiver : Channel
  pub updates : List ℕ
  pub written : Bytes
  pub delivered : Bytes

unfoldable pub start : ℕ → Bytes → Flow
start id target = record {
  sender = new_channel id target;
  data_frames = [];
  receiver = new_channel id target;
  updates = [];
  written = [];
  delivered = [];
}

-- The connection keeps the order of frames; what waits where is otherwise free. A read into an empty
-- buffer changes nothing and sends nothing, and is no step.
pub data Step : Flow → Flow → Type 0 where
  writes :
      (f : Flow) (b chunk : Bytes) (ch : Channel)
      → take_chunk f.sender b ≡ send chunk ch
      → Step f (record f {
        sender = ch;
        data_frames = f.data_frames ++ (chunk ∷ []);
        written = f.written ++ chunk;
      })
  arrives :
      (f : Flow) (chunk : Bytes) (rest : List Bytes)
      → f.data_frames ≡ chunk ∷ rest
      → Step f (record f { data_frames = rest; receiver = (push_data chunk f.receiver).0 })
  reads :
      (f : Flow) (n : ℕ) (b : Bytes) (ch : Channel)
      → 0 < n
      → read_turn n f.receiver ≡ got b ch
      → Step f (record f {
        receiver = ch;
        updates = f.updates ++ (length b ∷ []);
        delivered = f.delivered ++ b;
      })
  credits :
      (f : Flow) (n : ℕ) (rest : List ℕ)
      → f.updates ≡ n ∷ rest
      → Step f (record f { updates = rest; sender = add_send_window n f.sender })

pub data Reach (s : Flow) : Flow → Type 0 where
  here : Reach s s
  next : {t u : Flow} → Reach s t → Step t u → Reach s u

abbrev flatten : List Bytes → Bytes
flatten [] = []
flatten (b ∷ bs) = b ++ flatten bs

abbrev total : List ℕ → ℕ
total [] = 0
total (n ∷ ns) = n + total ns

flatten-append : (bs : List Bytes) (b : Bytes) → flatten (bs ++ (b ∷ [])) ≡ flatten bs ++ b
flatten-append [] b = append-nil b
flatten-append (x ∷ bs) b = rw (flatten-append bs b) (sym (append_assoc x (flatten bs) b))

total-append : (ns : List ℕ) (n : ℕ) → total (ns ++ (n ∷ [])) ≡ total ns + n
total-append [] n = omega arith
total-append (x ∷ ns) n = omega (arith, total-append ns n)

-- Every byte of credit is in one of four places, and no byte of data is lost or out of order.
pub record Inv (f : Flow) : Type 0 where
  pub credit :
      f.sender.send_window + length (flatten f.data_frames) + length f.receiver.rb + total f.updates
      ≡ default_send_window
  pub no_error : f.receiver.rerr ≡ none
  pub stream : f.written ≡ f.delivered ++ (f.receiver.rb ++ flatten f.data_frames)

start-Inv : (id : ℕ) (target : Bytes) → Inv (start id target)
unfolding start new_channel
start-Inv id target = ground arith

chunk_size : (ch : Channel) (b : Bytes) → length (chunk_of ch b) ≤ ch.send_window
chunk_size ch b = ground (arith, length-take ch.send_window b)

take_chunk_sent :
    (ch ch' : Channel) (b chunk : Bytes)
    → take_chunk ch b ≡ send chunk ch'
    → (ch' ≡ record ch { send_window = ch.send_window - length chunk })
      × (length chunk ≤ ch.send_window)
unfolding take_chunk
take_chunk_sent ch ch' b chunk h = ground (arith, chunk_size ch b)

read_turn_got :
    (n : ℕ) (ch ch' : Channel) (b : Bytes)
    → read_turn n ch ≡ got b ch'
    → (ch.rb ≡ b ++ ch'.rb) × (ch'.rerr ≡ ch.rerr)
unfolding read_turn
read_turn_got n ch ch' b h = ground (arith, take-append-drop n ch.rb)

writes-Inv :
    (f : Flow) (b chunk : Bytes) (ch : Channel)
    → take_chunk f.sender b ≡ send chunk ch
    → Inv f
    → Inv (record f {
      sender = ch;
      data_frames = f.data_frames ++ (chunk ∷ []);
      written = f.written ++ chunk;
    })
writes-Inv f b chunk ch e v =
    let (paid, fits) = take_chunk_sent f.sender ch b chunk e in
    let rest = flatten-append f.data_frames chunk in
    record {
      credit = omega (
        arith,
        ap (λ (c : Channel). c.send_window) paid,
        ap length rest,
        length-append (flatten f.data_frames) chunk,
        v.credit,
      );
      no_error = v.no_error;
      stream = rw (v.stream, rest) (simp append_assoc);
    }

arrives-Inv :
    (f : Flow) (chunk : Bytes) (rest : List Bytes)
    → f.data_frames ≡ chunk ∷ rest
    → Inv f
    → Inv (record f { data_frames = rest; receiver = (push_data chunk f.receiver).0 })
unfolding push_data
arrives-Inv f chunk rest e v =
    let credit = rw e at v.credit in
    let stream = rw e at v.stream in
    let fits : ltb max_receive_buffer (length f.receiver.rb + length chunk) ≡ false =
      le→ltb _ _ (omega (arith, length-append chunk (flatten rest), credit)) in
    ground (
      arith,
      length-append chunk (flatten rest),
      length-append f.receiver.rb chunk,
      append_assoc f.receiver.rb chunk (flatten rest),
    )

reads-Inv :
    (f : Flow) (n : ℕ) (b : Bytes) (ch : Channel)
    → read_turn n f.receiver ≡ got b ch
    → Inv f
    → Inv (record f {
      receiver = ch;
      updates = f.updates ++ (length b ∷ []);
      delivered = f.delivered ++ b;
    })
reads-Inv f n b ch e v =
    let (split, same) = read_turn_got n f.receiver ch b e in
    record {
      credit = omega (
        arith,
        ap length split,
        length-append b ch.rb,
        total-append f.updates (length b),
        v.credit,
      );
      no_error = same ∙ v.no_error;
      stream = v.stream ∙ rw split (simp append_assoc);
    }

credits-Inv :
    (f : Flow) (n : ℕ) (rest : List ℕ)
    → f.updates ≡ n ∷ rest
    → Inv f
    → Inv (record f { updates = rest; sender = add_send_window n f.sender })
unfolding add_send_window
credits-Inv f n rest e v = let credit = rw e at v.credit in ground arith

Step-Inv : {f g : Flow} → Step f g → Inv f → Inv g
Step-Inv (writes f b chunk ch e) v = writes-Inv f b chunk ch e v
Step-Inv (arrives f chunk rest e) v = arrives-Inv f chunk rest e v
Step-Inv (reads f n b ch p e) v = reads-Inv f n b ch e v
Step-Inv (credits f n rest e) v = credits-Inv f n rest e v

Reach-Inv : {s f : Flow} → Inv s → Reach s f → Inv f
Reach-Inv v here = v
Reach-Inv v (next r st) = Step-Inv st (Reach-Inv v r)

-- In every state that the two ends of a channel can reach by writing, reading and exchanging data
-- frames and window updates in any order, the bytes written are the bytes delivered, the receive
-- buffer and the frames under way in that order; buffer and credit stay within one window, and the
-- overflow guard has not fired.
pub Reach-lossless :
    (id : ℕ) (target : Bytes) (f : Flow)
    → Reach (start id target) f
    → (f.written ≡ f.delivered ++ (f.receiver.rb ++ flatten f.data_frames))
      × (length f.receiver.rb ≤ default_send_window)
      × (f.sender.send_window ≤ default_send_window)
      × (f.receiver.rerr ≡ none)
Reach-lossless id target f r =
    let v = Reach-Inv (start-Inv id target) r in
    (v.stream, omega (arith, v.credit), omega (arith, v.credit), v.no_error)

-- Once no frame and no window update is under way and the receive buffer is empty, the reader has
-- every byte written and the sender has its whole window back.
pub Reach-drained :
    (id : ℕ) (target : Bytes) (f : Flow)
    → Reach (start id target) f
    → f.data_frames ≡ []
    → f.receiver.rb ≡ []
    → f.updates ≡ []
    → (f.delivered ≡ f.written) × (f.sender.send_window ≡ default_send_window)
Reach-drained id target f r e1 e2 e3 =
    let v = Reach-Inv (start-Inv id target) r in
    let stream = rw (e1, e2) at v.stream in
    let credit = rw (e1, e2, e3) at v.credit in
    (sym (stream ∙ append-nil f.delivered), omega (arith, credit))
