-- ===== src/Daemon/Steps.antt =====
-- main.go, runDaemon: the daemon's turns keep the manager's state in order.
use tunnelmanager.Prelude.{
  ◌&&◌, ◌||◌, ◌∷◌, ◌≡◌, ◌⊎◌, Bool, List, Option, [], ap, arith, false, if_both, if◌then◌else◌, inl,
  inr, ltb, none, refl, some, subst, sym, true,
}
use tunnelmanager.Manager.Tunnels.Invariant.{Inv}
use tunnelmanager.Manager.Tunnels.Maps.{Distinct}
use tunnelmanager.Manager.Tunnels.{stop, Manager, new_manager}
use tunnelmanager.Daemon.{
  Daemon, Event, requested, hung_up, terminated, sleep_over, control_failed, main_turn,
  trigger_shutdown, handler, sleep_turn, shut_down, daemon_turn, daemon_turns, open_daemon,
}
use tunnelmanager.Manager.Logging.{LogBuffer}
use tunnelmanager.Manager.Config.{Config, Yaml, Disk}
use tunnelmanager.Manager.Control.{Json}
use tunnelmanager.Manager.Control.Requests.{request_op, maybe_step, handle_control-step}
use tunnelmanager.Manager.Operations.Steps.{
  Op, stops, reloads, step, Sound, LoadsDistinct, step-Sound, starts,
}

-- The operation of the manager that a turn makes, if it makes one.
abbrev pub event_op : Json → Event → Daemon → Option Op
event_op j (requested req) d = request_op j req
event_op j hung_up d = some reloads
event_op j terminated d = none
event_op j sleep_over d = none
event_op j control_failed d = none
event_op j main_turn d = if d.stopped then none else if d.shutdown then some stops else none

abbrev pub is_reload : Option Op → Bool
is_reload (some reloads) = true
is_reload _ = false

-- The event may lead to a Reload: SIGHUP, or a request for it.
abbrev pub asks_reload : Json → Event → Bool
asks_reload j (requested req) = is_reload (request_op j req)
asks_reload j hung_up = true
asks_reload j _ = false

-- The event uses the manager: a control request or SIGHUP.
abbrev pub uses_manager : Event → Bool
uses_manager (requested req) = true
uses_manager hung_up = true
uses_manager _ = false

-- Main has not stopped the manager, or no tunnel runs.
abbrev pub Idle : Daemon → Type 0
Idle d = (d.stopped ≡ false) ⊎ (d.manager.tunnels ≡ [])

-- Some element passes the test.
abbrev pub any : (Event → Bool) → List Event → Bool
any f [] = false
any f (e ∷ es) = let rest = any f es in f e || rest

module _ (y : Yaml) (j : Json) (b : LogBuffer) where
  -- A control request or SIGHUP is handled between mgr.Stop() and the end of the process.
  unfoldable pub late : List Event → Daemon → Bool
  late [] d = false
  late (e ∷ es) d =
      let rest = late es (daemon_turn y j b e d) in
      if d.ended then false else (d.stopped && uses_manager e) || rest

  by_shutdown :
      (t s : Bool) (d : Daemon)
      → (if t
          then record d { ended = true }
          else if s
          then record d { manager = stop d.manager; stopped = true }
          else d).manager
        ≡ maybe_step y (if t then none else if s then some stops else none) d.manager
  unfolding step
  by_shutdown true s d = refl
  by_shutdown false true d = refl
  by_shutdown false false d = refl

  daemon_turn-step :
      (e : Event) (d : Daemon)
      → (daemon_turn y j b e d).manager ≡ maybe_step y (event_op j e d) d.manager
  unfolding daemon_turn handler sleep_turn trigger_shutdown shut_down step
  daemon_turn-step (requested req) d = (handle_control-step y j b req d.manager).0
  daemon_turn-step hung_up d = refl
  daemon_turn-step terminated d = refl
  daemon_turn-step sleep_over d =
      if_both (λ (x : Daemon). x.manager ≡ d.manager) (ltb 0 d.timers) refl refl
  daemon_turn-step control_failed d = refl
  daemon_turn-step main_turn d = by_shutdown d.stopped d.shutdown d

  pub turn-Idle :
      (e : Event) (d : Daemon)
      → (d.stopped && uses_manager e) ≡ false
      → Idle d
      → Idle (daemon_turn y j b e d)
  unfolding daemon_turn handler sleep_turn trigger_shutdown shut_down stop
  turn-Idle (requested req) d u h = inl (ground arith)
  turn-Idle hung_up d u h = inl (ground arith)
  turn-Idle terminated d u h = h
  turn-Idle sleep_over d u h = if_both Idle (ltb 0 d.timers) h h
  turn-Idle control_failed d u h = h
  turn-Idle main_turn d u h = if_both Idle d.stopped h (if_both Idle d.shutdown (inr refl) h)

  pick :
      (a c r : Bool) (x z : Daemon)
      → Idle x
      → (c ≡ false → (r ≡ true) ⊎ Idle z)
      → ((if a then false else c || r) ≡ true) ⊎ Idle (if a then x else z)
  pick true c r x z h k = inr h
  pick false true r x z h k = inl refl
  pick false false r x z h k = k refl

  pub turns-Idle :
      (es : List Event) (d : Daemon) → Idle d → (late es d ≡ true) ⊎ Idle (daemon_turns y j b es d)
  unfolding late daemon_turns
  turns-Idle [] d h = inr h
  turns-Idle (e ∷ es) d h =
      pick d.ended (d.stopped && uses_manager e) (late es (daemon_turn y j b e d)) d
        (daemon_turns y j b es (daemon_turn y j b e d)) h
        (λ u. turns-Idle es (daemon_turn y j b e d) (turn-Idle e d u h))

  maybe_step-Sound :
      {Q : Type 0} (o : Option Op) (m : Manager)
      → (is_reload o ≡ true → LoadsDistinct Q y m)
      → Sound Q m
      → Sound Q (maybe_step y o m)
  maybe_step-Sound none m l v = v
  maybe_step-Sound (some o) m l v =
      step-Sound y o m (λ e. l (ap (λ (x : Op). is_reload (some x)) e)) v

  event_op-reload :
      (e : Event) (d : Daemon) → is_reload (event_op j e d) ≡ true → asks_reload j e ≡ true
  event_op-reload (requested req) d r = r
  event_op-reload hung_up d r = refl
  event_op-reload terminated d r = r
  event_op-reload sleep_over d r = r
  event_op-reload control_failed d r = r
  event_op-reload main_turn d r = ground arith

  turn-Sound :
      {Q : Type 0} (e : Event) (d : Daemon)
      → (asks_reload j e ≡ true → Q)
      → Sound Q d.manager
      → Sound Q (daemon_turn y j b e d).manager
  turn-Sound {Q} e d q v =
      subst (Sound Q) (sym (daemon_turn-step e d))
        (maybe_step-Sound (event_op j e d) d.manager (λ r cfg _. inl (q (event_op-reload e d r))) v)

  turns-Sound :
      {Q : Type 0} (es : List Event) (d : Daemon)
      → (any (asks_reload j) es ≡ true → Q)
      → Sound Q d.manager
      → Sound Q (daemon_turns y j b es d).manager
  unfolding daemon_turns
  turns-Sound [] d q v = v
  turns-Sound {Q} (e ∷ es) d q v =
      if_both (λ (x : Daemon). Sound Q x.manager) d.ended v
        (turns-Sound es (daemon_turn y j b e d) (λ r. q (ground arith))
          (turn-Sound e d (λ r. q (ground arith)) v))

-- What holds of a daemon that was just opened, if it was.
abbrev Fresh : Type 0 → Option Daemon → Type 0
Fresh Q none = Unit
Fresh Q (some d) = Sound Q d.manager × Idle d

open_daemon-Fresh :
    {Q : Type 0} (y : Yaml) (cfg : Config) (files : Disk) (pidfile : Bool)
    → Q ⊎ Distinct cfg.tunnels
    → Fresh Q (open_daemon cfg files pidfile)
unfolding open_daemon new_manager step
open_daemon-Fresh y cfg files false h = tt
open_daemon-Fresh y cfg files true h = (
  step-Sound y starts (new_manager cfg [] files) (λ p. absurd cc)
      (record { running = record { runs = tt; once = tt }; names = h }),
  inl refl,
)

-- Whatever the goroutines of a daemon get, and in whatever order, every running tunnel runs once,
-- under the name of its configuration, with the runner of its mode; and once main has stopped the
-- manager no tunnel runs, unless a control request or SIGHUP is handled between that and the end
-- of the process.
pub daemon-Inv :
    (y : Yaml) (j : Json) (b : LogBuffer) (cfg : Config) (files : Disk) (pidfile : Bool)
    (d : Daemon) (es : List Event)
    → open_daemon cfg files pidfile ≡ some d
    → let x = daemon_turns y j b es d in Inv x.manager × ((late y j b es d ≡ true) ⊎ Idle x)
daemon-Inv y j b cfg files pidfile d es e =
    let f : Fresh Unit (some d) =
      subst (Fresh Unit) e (open_daemon-Fresh y cfg files pidfile (inl tt)) in
    ((turns-Sound y j b es d (λ _. tt) f.0).running, turns-Idle y j b es d f.1)

-- The configured names differ, whatever the goroutines of a daemon get, and in whatever order, when
-- those of the configuration that it was given do, unless one of the events asks for a Reload.
pub daemon-Distinct :
    (y : Yaml) (j : Json) (b : LogBuffer) (cfg : Config) (files : Disk) (pidfile : Bool)
    (d : Daemon) (es : List Event)
    → Distinct cfg.tunnels
    → open_daemon cfg files pidfile ≡ some d
    → (any (asks_reload j) es ≡ true) ⊎ Distinct (daemon_turns y j b es d).manager.cfg.tunnels
daemon-Distinct y j b cfg files pidfile d es h e =
    let f : Fresh (any (asks_reload j) es ≡ true) (some d) =
      subst (Fresh (any (asks_reload j) es ≡ true)) e
        (open_daemon-Fresh y cfg files pidfile (inr h)) in
    (turns-Sound y j b es d (λ q. q) f.0).names
