-- ===== src/Relay/Conn.antt =====
-- One end of a net.Conn as its owner sees it, with io.ReadFull and Write.
use tunnelmanager.Prelude.{
  ◌++◌, ◌-◌, ◌<◌, ◌==◌, ◌≡◌, Action, Bytes, [], arith, drop, drop-append_left, err, if◌then◌else◌,
  leb, length, length-append, length-take, ltb, ok, take, take-append-drop, take-append_left, ℕ,
}

-- io.EOF, and io.ErrUnexpectedEOF for a read that ends in the middle.
pub data ReadError : Type 0 where
  eof unexpected_eof : ReadError

pub data WriteError : Type 0 where
  broken_pipe : WriteError

-- `input` is all that the peer still sends before it closes, `output` what was written to it, and
-- `writes` the number of calls of Write that still succeed before the connection breaks.
pub record Conn : Type 0 where
  pub input : Bytes
  pub output : Bytes
  pub writes : ℕ

-- io.ReadFull into a buffer of `n` bytes. A short read uses up what there was.
unfoldable pub read_full : ℕ → Action Conn ReadError Bytes
read_full n c =
    if leb n (length c.input)
    then (ok (take n c.input), record c { input = drop n c.input })
    else (err (if length c.input == 0 then eof else unexpected_eof), record c { input = [] })

unfoldable pub write : Bytes → Action Conn WriteError (Unit {0})
write b c =
    if ltb 0 c.writes
    then (ok tt, record c { output = c.output ++ b; writes = c.writes - 1 })
    else (err broken_pipe, c)

pub read_full-append :
    (c : Conn) (xs rest : Bytes) (n : ℕ)
    → n ≡ length xs
    → c.input ≡ xs ++ rest
    → read_full n c ≡ (ok xs, record c { input = rest })
unfolding read_full
read_full-append c xs rest n e h =
    ground (arith, take-append_left xs rest, drop-append_left xs rest, length-append xs rest)

-- What a successful read took is the front of the input.
pub read_full_ok :
    (c d : Conn) (n : ℕ) (xs : Bytes)
    → read_full n c ≡ (ok xs, d)
    → (c.input ≡ xs ++ d.input) × (length xs ≡ n) × (d.output ≡ c.output) × (d.writes ≡ c.writes)
unfolding read_full
read_full_ok c d n xs h = ground (arith, take-append-drop n c.input, length-take n c.input)

pub write_ok :
    (c : Conn) (b : Bytes)
    → 0 < c.writes
    → write b c ≡ (ok tt, record c { output = c.output ++ b; writes = c.writes - 1 })
unfolding write
write_ok c b h = ground arith
