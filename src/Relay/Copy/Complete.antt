-- ===== src/Relay/Copy/Complete.antt =====
-- relay/relay.go: what each goroutine of Relay has copied, in any order of their turns.
use tunnelmanager.Prelude.{
  ◌++◌, ◌+◌, ◌∙◌, ◌∷◌, ◌≡◌, ◌⊎◌, Bool, Bytes, Result, [], ap, append_assoc, arith, drop, err, false,
  if_both, inl, inr, length, length-append, ok, refl, some, sym, take, take-append-drop, true, ℕ,
}
use tunnelmanager.Relay.Conn.{write, WriteError, broken_pipe, Conn}
use tunnelmanager.Relay.Copy.{
  End, Copying, going, finished, close_end, chunk_length, after_write, turn_on,
}

abbrev pub count_of : Copying → ℕ
count_of (going n) = n
count_of (finished n e) = n

abbrev pub is_going : Copying → Bool
is_going (going n) = true
is_going (finished n e) = false

abbrev pub failed : Copying → Bool
failed (finished n (some e)) = true
failed _ = false

-- One direction: of the bytes `given` the first `sofar` were written behind `before`.
pub record Copied (given before left written : Bytes) (c : Copying) : Type 0 where
  pub sofar : Bytes
  pub rest : Bytes
  pub given_split : given ≡ sofar ++ rest
  pub written_split : written ≡ before ++ sofar
  pub counted : count_of c ≡ length sofar
  pub goes_on : is_going c ≡ true → rest ≡ left
  pub complete : is_going c ≡ false → failed c ≡ false → rest ≡ []

close_end-output : (e : End) → (close_end e).conn.output ≡ e.conn.output
unfolding close_end
close_end-output e = if_both (λ (x : End). x.conn.output ≡ e.conn.output) e.half_closes refl refl

-- Writing adds the bytes to the output, or does nothing.
write-output :
    (b : Bytes) (c : Conn)
    → (((write b c).0 ≡ ok tt) × ((write b c).1.output ≡ c.output ++ b))
      ⊎ (((write b c).0 ≡ err broken_pipe) × ((write b c).1.output ≡ c.output))
unfolding write
write-output b c = ground arith

module _ (given before : Bytes) where
  chunk-Copied :
      (m count : ℕ) (input out out' : Bytes)
      → out' ≡ out ++ take m input
      → Copied given before input out (going count)
      → Copied given before (drop m input) out' (going (count + length (take m input)))
  chunk-Copied m count input out out' e v = record {
    sofar = v.sofar ++ take m input;
    rest = drop m input;
    given_split =
        v.given_split
        ∙ ap (λ xs. v.sofar ++ xs) (v.goes_on refl ∙ sym (take-append-drop m input))
        ∙ sym (append_assoc v.sofar (take m input) (drop m input));
    written_split =
        e
        ∙ ap (λ xs. xs ++ take m input) v.written_split
        ∙ append_assoc before v.sofar (take m input);
    counted = let h = v.counted in omega (arith, length-append v.sofar (take m input));
    goes_on = λ h. refl;
    complete = λ h k. cc;
  }

  pub turn_on-Copied :
      (input : Bytes) (n count : ℕ) (src dst : End)
      → Copied given before input dst.conn.output (going count)
      → let (src', dst', c) = turn_on input n src dst count in
        Copied given before src'.conn.input dst'.conn.output c
  unfolding turn_on after_write
  turn_on-Copied [] n count src dst v = record {
    sofar = v.sofar;
    rest = v.rest;
    given_split = v.given_split;
    written_split = close_end-output dst ∙ v.written_split;
    counted = v.counted;
    goes_on = λ h. cc;
    complete = λ h k. v.goes_on refl;
  }
  turn_on-Copied (b ∷ bs) n count src dst v =
      by_write (write (take (chunk_length n) (b ∷ bs)) dst.conn)
        (write-output (take (chunk_length n) (b ∷ bs)) dst.conn)
    where
      by_write :
          (r : Result WriteError (Unit {0}) × Conn)
          → ((r.0 ≡ ok tt) × (r.1.output ≡ dst.conn.output ++ take (chunk_length n) (b ∷ bs)))
            ⊎ ((r.0 ≡ err broken_pipe) × (r.1.output ≡ dst.conn.output))
          → let (src', dst', c) =
              after_write
                (length (take (chunk_length n) (b ∷ bs)))
                (record src { conn = record src.conn { input = drop (chunk_length n) (b ∷ bs) } })
                dst
                count
                r in
            Copied given before src'.conn.input dst'.conn.output c
      by_write (ok _, conn) (inl w) =
          chunk-Copied (chunk_length n) count (b ∷ bs) dst.conn.output conn.output w.1 v
      by_write (ok _, conn) (inr w) = cc
      by_write (err _, conn) (inl w) = cc
      by_write (err _, conn) (inr w) = record {
        sofar = v.sofar;
        rest = v.rest;
        given_split = v.given_split;
        written_split = close_end-output dst ∙ v.written_split;
        counted = v.counted;
        goes_on = λ h. cc;
        complete = λ h k. cc;
      }

pub Copied-same :
    (given before left left' written written' : Bytes) (c : Copying)
    → left' ≡ left
    → written' ≡ written
    → Copied given before left written c
    → Copied given before left' written' c
Copied-same given before left left' written written' c el ew v = record {
  sofar = v.sofar;
  rest = v.rest;
  given_split = v.given_split;
  written_split = ew ∙ v.written_split;
  counted = v.counted;
  goes_on = λ h. v.goes_on h ∙ sym el;
  complete = v.complete;
}
