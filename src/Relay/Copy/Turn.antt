-- ===== src/Relay/Copy/Turn.antt =====
-- relay/relay.go: a goroutine of Relay leaves the other direction alone, and comes to an end.
use tunnelmanager.Prelude.{
  ◌<◌, ◌∷◌, ◌≡◌, ◌≤◌, Bytes, Result, [], arith, drop, err, if_split, length, length-drop, ok, refl,
  suc, take, true, ℕ,
}
use tunnelmanager.Relay.Conn.{write, WriteError, Conn}
use tunnelmanager.Relay.Copy.{
  End, Copying, going, finished, close_end, chunk_length, after_write, turn_on,
}

close_end-frame :
    (e : End)
    → e.half_closes ≡ true
    → ((close_end e).conn.input ≡ e.conn.input) × ((close_end e).half_closes ≡ true)
unfolding close_end
close_end-frame e h =
    if_split (λ (x : End). (x.conn.input ≡ e.conn.input) × (x.half_closes ≡ true)) e.half_closes
      (λ _. (refl, h)) (λ off. cc)

write-input : (b : Bytes) (c : Conn) → (write b c).1.input ≡ c.input
unfolding write
write-input b c = ground arith

-- What a turn leaves alone of the ends, where the one written to can be half closed.
pub record Framed (src dst src' dst' : End) : Type 0 where
  pub src_output : src'.conn.output ≡ src.conn.output
  pub dst_input : dst'.conn.input ≡ dst.conn.input
  pub src_half : src'.half_closes ≡ src.half_closes
  pub dst_half : dst'.half_closes ≡ true

after_write-Framed :
    (n count : ℕ) (src dst : End) (r : Result WriteError (Unit {0}) × Conn)
    → dst.half_closes ≡ true
    → r.1.input ≡ dst.conn.input
    → let (src', dst', c) = after_write n src dst count r in Framed src dst src' dst'
unfolding after_write
after_write-Framed n count src dst (ok _, conn) h e = record {
  src_output = refl;
  dst_input = e;
  src_half = refl;
  dst_half = h;
}
after_write-Framed n count src dst (err _, conn) h e = record {
  src_output = refl;
  dst_input = (close_end-frame dst h).0;
  src_half = refl;
  dst_half = (close_end-frame dst h).1;
}

pub turn_on-Framed :
    (input : Bytes) (n count : ℕ) (src dst : End)
    → dst.half_closes ≡ true
    → let (src', dst', c) = turn_on input n src dst count in Framed src dst src' dst'
unfolding turn_on
turn_on-Framed [] n count src dst h = record {
  src_output = refl;
  dst_input = (close_end-frame dst h).0;
  src_half = refl;
  dst_half = (close_end-frame dst h).1;
}
turn_on-Framed (b ∷ bs) n count src dst h =
    let src' : End = record src {
      conn = record src.conn { input = drop (chunk_length n) (b ∷ bs) };
    } in
    let f =
      after_write-Framed (length (take (chunk_length n) (b ∷ bs))) count src' dst
        (write (take (chunk_length n) (b ∷ bs)) dst.conn) h
        (write-input (take (chunk_length n) (b ∷ bs)) dst.conn) in
    record {
      src_output = f.src_output;
      dst_input = f.dst_input;
      src_half = f.src_half;
      dst_half = f.dst_half;
    }

-- How many more turns a direction can take.
abbrev pub turns_left : Copying → Bytes → ℕ
turns_left (going n) left = suc (length left)
turns_left (finished n e) left = 0

after_write-shorter :
    (n count : ℕ) (src dst : End) (r : Result WriteError (Unit {0}) × Conn) (k : ℕ)
    → length src.conn.input < k
    → let (src', dst', c) = after_write n src dst count r in turns_left c src'.conn.input ≤ k
unfolding after_write
after_write-shorter n count src dst (ok _, conn) k h = omega arith
after_write-shorter n count src dst (err _, conn) k h = omega arith

pub turn_on-shorter :
    (input : Bytes) (n count : ℕ) (src dst : End)
    → let (src', dst', c) = turn_on input n src dst count in
      turns_left c src'.conn.input ≤ length input
unfolding turn_on
turn_on-shorter [] n count src dst = omega arith
turn_on-shorter (b ∷ bs) n count src dst =
    after_write-shorter (length (take (chunk_length n) (b ∷ bs))) count
      (record src { conn = record src.conn { input = drop (chunk_length n) (b ∷ bs) } }) dst
      (write (take (chunk_length n) (b ∷ bs)) dst.conn) (length (b ∷ bs))
      (ground (arith, length-drop (chunk_length n) (b ∷ bs)))
