-- ===== src/Daemon/Ends.antt =====
-- main.go, runDaemon: how a stop request ends the daemon.
use tunnelmanager.Prelude.{
  ◌++◌, ◌<◌, ◌∙◌, ◌∷◌, ◌≡◌, ◌⊎◌, Bool, List, [], ap, arith, codes, false, if_both, if_split,
  if◌then◌else◌, inl, inr, ltb, refl, sym, text_eq, true,
}
use tunnelmanager.Daemon.{
  Daemon, Event, requested, hung_up, terminated, sleep_over, control_failed, main_turn,
  trigger_shutdown, handler, sleep_turn, shut_down, daemon_turn, daemon_turns,
}
use tunnelmanager.Manager.Logging.{LogBuffer}
use tunnelmanager.Manager.Config.{Yaml}
use tunnelmanager.Manager.Control.{Json, Request}
use tunnelmanager.Daemon.Steps.{turns-Idle, Idle, late}

-- The shutdown is triggered, or a goroutine sleeps before it triggers it.
abbrev pub Stopping : Daemon → Type 0
Stopping d = (d.shutdown ≡ true) ⊎ (0 < d.timers)

-- A stop request, the end of a sleep and two turns of main, with other events in between.
abbrev pub stop_events : Request → List Event → List Event → List Event → List Event → List Event
stop_events req es fs gs hs =
    (requested req ∷ es) ++ ((sleep_over ∷ fs) ++ ((main_turn ∷ gs) ++ (main_turn ∷ hs)))

module _ (y : Yaml) (j : Json) (b : LogBuffer) where
  shutdown_stays :
      (e : Event) (d : Daemon) → d.shutdown ≡ true → (daemon_turn y j b e d).shutdown ≡ true
  unfolding daemon_turn handler sleep_turn trigger_shutdown shut_down
  shutdown_stays (requested req) d p = p
  shutdown_stays hung_up d p = p
  shutdown_stays terminated d p = refl
  shutdown_stays sleep_over d p =
      if_both (λ (x : Daemon). x.shutdown ≡ true) (ltb 0 d.timers) refl p
  shutdown_stays control_failed d p = refl
  shutdown_stays main_turn d p =
      if_both (λ (x : Daemon). x.shutdown ≡ true) d.stopped p
        (if_both (λ (x : Daemon). x.shutdown ≡ true) d.shutdown p p)

  timer_stays : (e : Event) (d : Daemon) → 0 < d.timers → Stopping (daemon_turn y j b e d)
  unfolding daemon_turn handler sleep_turn trigger_shutdown shut_down
  timer_stays (requested req) d p =
      inr (if_both (λ n. 0 < n) (text_eq req.method (codes "stop")) (omega arith) p)
  timer_stays hung_up d p = inr p
  timer_stays terminated d p = inl refl
  timer_stays sleep_over d p = if_both Stopping (ltb 0 d.timers) (inl refl) (inr p)
  timer_stays control_failed d p = inl refl
  timer_stays main_turn d p =
      if_both Stopping d.stopped (inr p) (if_both Stopping d.shutdown (inr p) (inr p))

  stopping_stays : (e : Event) (d : Daemon) → Stopping d → Stopping (daemon_turn y j b e d)
  stopping_stays e d (inl p) = inl (shutdown_stays e d p)
  stopping_stays e d (inr p) = timer_stays e d p

  -- What each turn keeps, unless the daemon has ended, all turns keep.
  turns_keep :
      (P : Daemon → Type 0) (es : List Event) (d : Daemon)
      → ((e : Event) (x : Daemon) → P x → P (daemon_turn y j b e x))
      → P d
      → P (daemon_turns y j b es d)
  unfolding daemon_turns
  turns_keep P [] d h k = k
  turns_keep P (e ∷ es) d h k =
      if_both P d.ended k (turns_keep P es (daemon_turn y j b e d) h (h e d k))

  ended_same : (es : List Event) (d : Daemon) → d.ended ≡ true → daemon_turns y j b es d ≡ d
  unfolding daemon_turns
  ended_same [] d p = refl
  ended_same (e ∷ es) d p = if_split (λ (x : Daemon). x ≡ d) d.ended (λ q. refl) (λ q. absurd cc)

  outside :
      (c : Bool) {x s t : Daemon} (f : Daemon → Daemon)
      → (c ≡ true → f x ≡ x)
      → s ≡ f t
      → (if c then x else s) ≡ f (if c then x else t)
  outside true f h k = sym (h refl)
  outside false f h k = k

  turns-append :
      (es fs : List Event) (d : Daemon)
      → daemon_turns y j b (es ++ fs) d ≡ daemon_turns y j b fs (daemon_turns y j b es d)
  unfolding daemon_turns
  turns-append [] fs d = refl
  turns-append (e ∷ es) fs d =
      outside d.ended (daemon_turns y j b fs) (ended_same fs d)
        (turns-append es fs (daemon_turn y j b e d))

  ended_stays : (e : Event) (d : Daemon) → d.ended ≡ true → (daemon_turn y j b e d).ended ≡ true
  unfolding daemon_turn handler sleep_turn trigger_shutdown shut_down
  ended_stays (requested req) d p = p
  ended_stays hung_up d p = p
  ended_stays terminated d p = p
  ended_stays sleep_over d p = if_both (λ (x : Daemon). x.ended ≡ true) (ltb 0 d.timers) p p
  ended_stays control_failed d p = p
  ended_stays main_turn d p =
      if_both (λ (x : Daemon). x.ended ≡ true) d.stopped refl
        (if_both (λ (x : Daemon). x.ended ≡ true) d.shutdown p p)

  stopped_stays :
      (e : Event) (d : Daemon) → d.stopped ≡ true → (daemon_turn y j b e d).stopped ≡ true
  unfolding daemon_turn handler sleep_turn trigger_shutdown shut_down
  stopped_stays (requested req) d p = p
  stopped_stays hung_up d p = p
  stopped_stays terminated d p = p
  stopped_stays sleep_over d p = if_both (λ (x : Daemon). x.stopped ≡ true) (ltb 0 d.timers) p p
  stopped_stays control_failed d p = p
  stopped_stays main_turn d p =
      if_both (λ (x : Daemon). x.stopped ≡ true) d.stopped p
        (if_both (λ (x : Daemon). x.stopped ≡ true) d.shutdown refl p)

  -- The process ends only behind mgr.Stop().
  abbrev InOrder : Daemon → Type 0
  InOrder d = (d.ended ≡ false) ⊎ (d.stopped ≡ true)

  keeps_order : (e : Event) (d : Daemon) → InOrder d → InOrder (daemon_turn y j b e d)
  unfolding daemon_turn handler sleep_turn trigger_shutdown shut_down
  keeps_order e d (inr p) = inr (stopped_stays e d p)
  keeps_order (requested req) d (inl p) = inl p
  keeps_order hung_up d (inl p) = inl p
  keeps_order terminated d (inl p) = inl p
  keeps_order sleep_over d (inl p) = if_both InOrder (ltb 0 d.timers) (inl p) (inl p)
  keeps_order control_failed d (inl p) = inl p
  keeps_order main_turn d (inl p) =
      if_split InOrder d.stopped (λ q. inr q) (λ q. if_both InOrder d.shutdown (inr refl) (inl p))

  -- A turn that brings a running daemon to Q, and turns that keep Q behind it.
  stage :
      (P Q : Daemon → Type 0) (e : Event) (es : List Event) (d : Daemon)
      → (P d → Q (daemon_turn y j b e d))
      → ((f : Event) (x : Daemon) → Q x → Q (daemon_turn y j b f x))
      → (d.ended ≡ true) ⊎ P d
      → (let x = daemon_turns y j b (e ∷ es) d in (x.ended ≡ true) ⊎ Q x)
  unfolding daemon_turns
  stage P Q e es d h k (inl p) = inl (
      if_both (λ (x : Daemon). x.ended ≡ true) d.ended p
        (turns_keep (λ x. x.ended ≡ true) es (daemon_turn y j b e d) ended_stays
          (ended_stays e d p)))
  stage P Q e es d h k (inr p) =
      if_split (λ (x : Daemon). (x.ended ≡ true) ⊎ Q x) d.ended (λ q. inl q)
        (λ q. inr (turns_keep Q es (daemon_turn y j b e d) k (h p)))

  abbrev Shut : Daemon → Type 0
  Shut d = d.shutdown ≡ true

  asked :
      (req : Request) (d : Daemon)
      → req.method ≡ codes "stop"
      → Stopping (daemon_turn y j b (requested req) d)
  unfolding daemon_turn handler text_eq
  asked req d e = inr (rw (e, text_eq) (omega arith))

  woken : (d : Daemon) → Stopping d → Shut (daemon_turn y j b sleep_over d)
  unfolding daemon_turn sleep_turn trigger_shutdown
  woken d (inl p) = if_both Shut (ltb 0 d.timers) refl p
  woken d (inr p) = if_split Shut (ltb 0 d.timers) (λ q. refl) (λ q. ground arith)

  abbrev HasStopped : Daemon → Type 0
  HasStopped d = d.stopped ≡ true

  stops_manager : (d : Daemon) → Shut d → HasStopped (daemon_turn y j b main_turn d)
  unfolding daemon_turn shut_down
  stops_manager d p =
      if_split HasStopped d.stopped (λ q. q)
        (λ q. if_split HasStopped d.shutdown (λ r. refl) (λ r. absurd cc))

  finished : (d : Daemon) → HasStopped d → (daemon_turn y j b main_turn d).ended ≡ true
  unfolding daemon_turn shut_down
  finished d p = if_split (λ (x : Daemon). x.ended ≡ true) d.stopped (λ q. refl) (λ q. absurd cc)

  module _ (req : Request) (es fs gs hs : List Event) (d : Daemon) where
    ended_after :
        req.method ≡ codes "stop"
        → (daemon_turns y j b (stop_events req es fs gs hs) d).ended ≡ true
    ended_after e =
        let d1 = daemon_turns y j b (requested req ∷ es) d in
        let d2 = daemon_turns y j b (sleep_over ∷ fs) d1 in
        let d3 = daemon_turns y j b (main_turn ∷ gs) d2 in
        let a =
          stage (λ x. Unit) Stopping (requested req) es d (λ u. asked req d e) stopping_stays
            (inr tt) in
        let b' = stage Stopping Shut sleep_over fs d1 (woken d1) shutdown_stays a in
        let c = stage Shut HasStopped main_turn gs d2 (stops_manager d2) stopped_stays b' in
        let f =
          either
            (stage HasStopped (λ x. x.ended ≡ true) main_turn hs d3 (finished d3) ended_stays c) in
        let h : daemon_turns y j b (stop_events req es fs gs hs) d
            ≡ daemon_turns y j b (main_turn ∷ hs) d3 =
          turns-append (requested req ∷ es)
            ((sleep_over ∷ fs) ++ ((main_turn ∷ gs) ++ (main_turn ∷ hs))) d
          ∙ turns-append (sleep_over ∷ fs) ((main_turn ∷ gs) ++ (main_turn ∷ hs)) d1
          ∙ turns-append (main_turn ∷ gs) (main_turn ∷ hs) d2 in
        ap (λ (x : Daemon). x.ended) h ∙ f
      where
        either : {P : Type 0} → P ⊎ P → P
        either (inl p) = p
        either (inr p) = p

  InOrder-stopped : (d : Daemon) → InOrder d → d.ended ≡ true → d.stopped ≡ true
  InOrder-stopped d (inl p) e = absurd cc
  InOrder-stopped d (inr p) e = p

  none_run :
      (l : Bool) (d : Daemon)
      → d.stopped ≡ true
      → (l ≡ true) ⊎ Idle d
      → (l ≡ true) ⊎ (d.manager.tunnels ≡ [])
  none_run l d s (inl u) = inl u
  none_run l d s (inr (inl p)) = absurd cc
  none_run l d s (inr (inr p)) = inr p

-- A running daemon that gets a stop request ends once a sleep that began by then is over and main
-- has had two turns after that, whatever else its goroutines get before, between and after these
-- turns; and it ends without running tunnels, unless a control request or SIGHUP is handled
-- between mgr.Stop() and the end of the process. Main has not stopped the manager when the request
-- comes.
pub stop_ends :
    (y : Yaml) (j : Json) (b : LogBuffer) (req : Request) (es fs gs hs : List Event) (d : Daemon)
    → req.method ≡ codes "stop"
    → d.ended ≡ false
    → d.stopped ≡ false
    → (let all = stop_events req es fs gs hs in
        let x = daemon_turns y j b all d in
        (x.ended ≡ true) × ((late y j b all d ≡ true) ⊎ (x.manager.tunnels ≡ [])))
stop_ends y j b req es fs gs hs d e p q =
    let all : List Event = stop_events req es fs gs hs in
    let x : Daemon = daemon_turns y j b all d in
    let i : x.ended ≡ true = ended_after y j b req es fs gs hs d e in
    let o : InOrder y j b x = turns_keep y j b (InOrder y j b) all d (keeps_order y j b) (inl p) in
    (
      i,
      none_run y j b (late y j b all d) x (InOrder-stopped y j b x o i)
          (turns-Idle y j b all d (inl q)),
    )
