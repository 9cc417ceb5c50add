-- ===== src/Relay/RemoteClient/Reconnects.antt =====
-- relay/remoteclient.go: failed attempts are counted and delayed, and do not stop Run.
use tunnelmanager.Prelude.{
  ◌++◌, ◌+◌, ◌∙◌, ◌∷◌, ◌≡◌, All, Bool, Bytes, List, Option, Result, [], ap, arith, err, false,
  length, none, ok, refl, some, suc, sym, true, ℕ,
}
use tunnelmanager.Relay.Register.{RemoteTunnel}
use tunnelmanager.Relay.Conn.{Conn}
use tunnelmanager.Relay.RemoteClient.{
  waiting, ClientError, dial_server, set_last_err, at_top, Loop, log_in, dial, set_up, back_off,
  wake, serving,
}
use tunnelmanager.Relay.RemoteClient.Turns.{
  Turn, dials, sets_up, wakes, backs_off, take_turn, take_turns,
}
use tunnelmanager.Relay.CtrlConn.{new_ctrl_conn, CtrlConn}
use tunnelmanager.Manager.Operations.Steps.{step}

-- The turns of one attempt, which waits up to the timer if it fails.
abbrev pub attempt_turns : ℕ → (ℕ → ℕ) → Option Conn → List (ℕ × Bool × Turn)
attempt_turns now delay c =
    (now, true, dials c)
    ∷ (now, true, sets_up)
    ∷ (now, true, backs_off delay)
    ∷ (now, true, wakes)
    ∷ []

abbrev pub all_turns : ℕ → (ℕ → ℕ) → List (Option Conn) → List (ℕ × Bool × Turn)
all_turns now delay [] = []
all_turns now delay (c ∷ cs) = attempt_turns now delay c ++ all_turns now delay cs

-- No connection, or one on which the login fails.
abbrev pub Refused : Bytes → List RemoteTunnel → Option Conn → Type 0
Refused token tunnels none = Unit
Refused token tunnels (some c) = (e : ClientError) × ((log_in token tunnels c).0 ≡ err e)

-- Run at the top of its loop, with no connection and a client that is not closed.
abbrev pub trying : Bytes → List RemoteTunnel → Option ClientError → ℕ → ℕ → Loop
trying token tunnels last count attempt = record {
  client = record {
    token = token;
    tunnels = tunnels;
    stopped = false;
    cc = none;
    last_err = last;
    reconnect_count = count;
  };
  attempt = attempt;
  place = at_top;
}

-- The same after a login.
abbrev pub connected : Bytes → List RemoteTunnel → Option ClientError → ℕ → ℕ → CtrlConn → Loop
connected token tunnels last count attempt conn = record (trying token tunnels last count attempt) {
  client = record (trying token tunnels last count attempt).client { cc = some conn };
  place = serving;
}

module _ (now : ℕ) (delay : ℕ → ℕ) (token : Bytes) (tunnels : List RemoteTunnel) where
  -- One attempt that fails, up to its wait.
  abbrev pub up_to_wait : Option Conn → List (ℕ × Bool × Turn)
  up_to_wait c = (now, true, dials c) ∷ (now, true, sets_up) ∷ (now, true, backs_off delay) ∷ []

  failed_attempt :
      (c : Option Conn) (last : Option ClientError) (count n : ℕ)
      → Refused token tunnels c
      → (e : ClientError) × (take_turns
            (attempt_turns now delay c)
            (trying token tunnels last count n)
          ≡ trying token tunnels (some e) (count + 1) (n + 1))
  unfolding take_turns take_turn dial back_off set_last_err set_up wake
  failed_attempt none last count n h = (dial_server, refl)
  failed_attempt (some c) last count n h = (h.0, rw (set_up, h.1))

  good_attempt :
      (c c' : Conn) (last : Option ClientError) (count n : ℕ)
      → log_in token tunnels c ≡ (ok tt, c')
      → take_turns (attempt_turns now delay (some c)) (trying token tunnels last count n)
        ≡ connected token tunnels last count n (new_ctrl_conn c' now)
  unfolding take_turns take_turn dial back_off set_up wake
  good_attempt c c' last count n h = rw (
    set_up,
    ap (λ (r : Result ClientError (Unit {0}) × Conn). r.0) h,
    ap (λ (r : Result ClientError (Unit {0}) × Conn). r.1) h,
  )

  take_turns-append :
      (ts us : List (ℕ × Bool × Turn)) (l : Loop)
      → take_turns (ts ++ us) l ≡ take_turns us (take_turns ts l)
  unfolding take_turns
  take_turns-append [] us l = refl
  take_turns-append ((now', pick, t) ∷ ts) us l = take_turns-append ts us (take_turn now' pick t l)

  failed_attempts :
      (cs : List (Option Conn)) (last : Option ClientError) (count n : ℕ)
      → All (Refused token tunnels) cs
      → (e : Option ClientError) × (take_turns
            (all_turns now delay cs)
            (trying token tunnels last count n)
          ≡ trying token tunnels e (count + length cs) (n + length cs))
  unfolding take_turns
  failed_attempts [] last count n h =
      let ec : count + 0 ≡ count = omega arith in
      let en : n + 0 ≡ n = omega arith in (last, rw (ec, en))
  failed_attempts (c ∷ cs) last count n h =
      let (e, step) = failed_attempt c last count n h.0 in
      let (e', rest) = failed_attempts cs (some e) (count + 1) (n + 1) h.1 in
      let ec : count + suc (length cs) ≡ count + 1 + length cs = omega arith in
      let en : n + suc (length cs) ≡ n + 1 + length cs = omega arith in
      (
        e',
        take_turns-append (attempt_turns now delay c) (all_turns now delay cs)
              (trying token tunnels last count n)
            ∙ ap (take_turns (all_turns now delay cs)) step
            ∙ rest
            ∙ rw (ec, en),
      )

  all_turns-append :
      (cs ds : List (Option Conn))
      → all_turns now delay (cs ++ ds) ≡ all_turns now delay cs ++ all_turns now delay ds
  all_turns-append [] ds = refl
  all_turns-append (c ∷ cs) ds = ap (λ ts. attempt_turns now delay c ++ ts) (all_turns-append cs ds)

  -- A client that is not closed and at the top of its loop, for which any number of attempts fail
  -- at the dial or at the login and the next one logs in, is connected after these attempts and
  -- their waits, on the connection of that login, with as many more reconnects counted as attempts
  -- failed.
  pub reconnects :
      (cs : List (Option Conn)) (c c' : Conn) (last : Option ClientError) (count n : ℕ)
      → All (Refused token tunnels) cs
      → log_in token tunnels c ≡ (ok tt, c')
      → (e : Option ClientError) × (take_turns
            (all_turns now delay (cs ++ (some c ∷ [])))
            (trying token tunnels last count n)
          ≡ connected token tunnels e (count + length cs) (n + length cs) (new_ctrl_conn c' now))
  reconnects cs c c' last count n h good =
      let (e, failed) = failed_attempts cs last count n h in
      (
        e,
        ap (λ ts. take_turns ts (trying token tunnels last count n))
              (all_turns-append cs (some c ∷ []))
            ∙ take_turns-append (all_turns now delay cs) (attempt_turns now delay (some c))
                (trying token tunnels last count n)
            ∙ ap (take_turns (attempt_turns now delay (some c))) failed
            ∙ good_attempt c c' e (count + length cs) (n + length cs) good,
      )

  last_wait :
      (c : Option Conn) (last : Option ClientError) (count n : ℕ)
      → Refused token tunnels c
      → (take_turns (up_to_wait c) (trying token tunnels last count n)).place ≡ waiting (delay n)
  unfolding take_turns take_turn dial back_off set_last_err set_up
  last_wait none last count n h = refl
  last_wait (some c) last count n h = rw (set_up, h.1)

  -- The n-th failure waits for the delay of the attempts before it.
  pub failure_waits :
      (cs : List (Option Conn)) (c : Option Conn) (last : Option ClientError) (count : ℕ)
      → All (Refused token tunnels) cs
      → Refused token tunnels c
      → (take_turns
          (all_turns now delay cs ++ up_to_wait c)
          (trying token tunnels last count 0)).place
        ≡ waiting (delay (length cs))
  failure_waits cs c last count h bad =
      let (e, failed) = failed_attempts cs last count 0 h in
      let el : length cs ≡ 0 + length cs = omega arith in
      ap (λ l. l.place)
        (take_turns-append (all_turns now delay cs) (up_to_wait c)
            (trying token tunnels last count 0)
          ∙ ap (take_turns (up_to_wait c)) failed)
      ∙ last_wait c e (count + length cs) (0 + length cs) bad
      ∙ ap (λ k. waiting (delay k)) (sym el)
