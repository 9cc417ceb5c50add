-- ===== src/Relay/Copy.antt =====
-- relay/relay.go: Relay. Each of its two goroutines runs io.CopyBuffer and then closeWrite; one turn
-- of the loop of io.CopyBuffer is a step.
pub mod Turn
pub mod Complete
pub mod Both
pub mod Ends
mod Runs
use tunnelmanager.Prelude.{
  ◌*◌, ◌+◌, ◌∷◌, Bool, Bytes, List, Option, Result, [], drop, err, if◌then◌else◌, length, ltb, none,
  ok, some, take, true, ℕ,
}
use tunnelmanager.Relay.Conn.{write, Conn, WriteError}
use tunnelmanager.Manager.Config.{read_error}

abbrev pub buffer_size : ℕ
buffer_size = 32 * 1024

-- A connection: `read_error` says that reading ends with an error and not with EOF. Every connection
-- type of the program has CloseWrite; `half_closes` is false for another one.
pub record End : Type 0 where
  pub conn : Conn
  pub read_error : Bool
  pub half_closes : Bool
  pub write_closed : Bool

pub data CopyError : Type 0 where
  read_failed write_failed : CopyError

pub data Copying : Type 0 where
  going : ℕ → Copying
  finished : ℕ → Option CopyError → Copying

-- closeWrite, which closes a connection that cannot be half closed.
unfoldable pub close_end : End → End
close_end e = if e.half_closes then record e { write_closed = true } else record e {
  conn = record e.conn { input = []; writes = 0 };
  read_error = true;
  write_closed = true;
}

-- What Read returns of the input: at least one byte, and at most a buffer.
abbrev pub chunk_length : ℕ → ℕ
chunk_length n = if ltb n 1 then 1 else if ltb buffer_size n then buffer_size else n

-- The write of a chunk, by its result. One that fails writes nothing here.
pub after_write : ℕ → End → End → ℕ → Result WriteError (Unit {0}) × Conn → End × End × Copying
unfolding close_end
after_write n src dst count (ok _, conn) = (src, record dst { conn = conn }, going (count + n))
after_write n src dst count (err _, conn) = (src, close_end dst, finished count (some write_failed))

-- A turn that copies from `src`, whose input is given, to `dst`.
pub turn_on : Bytes → ℕ → End → End → ℕ → End × End × Copying
unfolding close_end after_write
turn_on [] n src dst count =
    (src, close_end dst, finished count (if src.read_error then some read_failed else none))
turn_on (b ∷ bs) n src dst count =
    let chunk = take (chunk_length n) (b ∷ bs) in
    let src' = record src { conn = record src.conn { input = drop (chunk_length n) (b ∷ bs) } } in
    after_write (length chunk) src' dst count (write chunk dst.conn)

unfoldable pub copy_turn : ℕ → End → End → ℕ → End × End × Copying
unfolding turn_on
copy_turn n src dst count = turn_on src.conn.input n src dst count

pub record Relaying : Type 0 where
  pub a : End
  pub b : End
  pub sending : Copying
  pub receiving : Copying

unfoldable pub relay : End → End → Relaying
relay a b = record { a = a; b = b; sending = going 0; receiving = going 0 }

-- Which goroutine moves, and how much its Read returns.
pub data RelayTurn : Type 0 where
  sends receives : ℕ → RelayTurn

unfoldable pub relay_turn : RelayTurn → Relaying → Relaying
unfolding copy_turn
relay_turn (sends n) r = elim r.sending [
  | finished _ _ ↦ r
  | going count ↦
      let (a, b, c) = copy_turn n r.a r.b count in record r { a = a; b = b; sending = c }
]
relay_turn (receives n) r = elim r.receiving [
  | finished _ _ ↦ r
  | going count ↦
      let (b, a, c) = copy_turn n r.b r.a count in record r { a = a; b = b; receiving = c }
]

unfoldable pub relay_turns : List RelayTurn → Relaying → Relaying
unfolding relay_turn
relay_turns [] r = r
relay_turns (t ∷ ts) r = relay_turns ts (relay_turn t r)

pub record Stats : Type 0 where
  pub sent_bytes : ℕ
  pub recv_bytes : ℕ
  pub sent_err : Option CopyError
  pub recv_err : Option CopyError

-- What Relay returns once both goroutines are done.
unfoldable pub relay_stats : Relaying → Option Stats
relay_stats r = elim r.sending [
  | going _ ↦ none
  | finished n e ↦ elim r.receiving [
    | going _ ↦ none
    | finished m f ↦ some (record { sent_bytes = n; recv_bytes = m; sent_err = e; recv_err = f })
  ]
]
