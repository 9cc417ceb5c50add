-- ===== src/Relay/RemoteServer/Shutdown/Events.antt =====
-- relay/remoteserver.go: what the server's goroutines do to its tables, in any order.
use tunnelmanager.Prelude.{
  ◌++◌, ◌∙◌, ◌∷◌, ◌≡◌, Bool, Bytes, List, [], ap, get_elem?, if_both, some, some-injective, subst,
  sym, true, ℕ,
}
use tunnelmanager.Relay.RemoteServer.{
  RemoteServer, new_server, track_conn, untrack_conn, attach_shared_listener, detach_first,
  close_at, drop_entry, close_first,
}
use tunnelmanager.Relay.RemoteServer.Shutdown.Tracked.{
  Tracked, attach_shared_listener-Tracked, detach_first-Tracked,
}
use tunnelmanager.Relay.Listener.{ListenerKey, SharedListener}
use tunnelmanager.Relay.RemoteServer.Shutdown.Closing.{
  close_at-Tracked, close_listed-Tracked, close_first-Tracked, drop_entry-Tracked,
}

-- The server, and the listeners that a call of Close, behind its unlock, has still to close.
pub record Running : Type 0 where
  pub server : RemoteServer
  pub to_close : List ℕ

abbrev pub started : Running
started = record { server = new_server; to_close = [] }

-- One critical section of a goroutine: attachSharedListener, trackConn, untrackConn, the parts of
-- detachSharedListener, the part of Close under rs.mu, and each sl.Close() of its loop, in any order
-- of Go's map. The table's entry is deleted only behind sl.Close().
pub data Turn (r : Running) : Running → Type 0 where
  attaches :
      (key : ListenerKey) (target : Bytes) (who : ℕ) (bound : Bool)
      → Turn r (record r { server = (attach_shared_listener key target who bound r.server).1 })
  tracks : (who : ℕ) → Turn r (record r { server = (track_conn who r.server).0 })
  untracks : (who : ℕ) → Turn r (record r { server = untrack_conn who r.server })
  leaves : (p who : ℕ) → Turn r (record r { server = (detach_first p who r.server).0 })
  shuts : (p : ℕ) → Turn r (record r { server = close_at p r.server })
  forgets :
      (p : ℕ) (sl : SharedListener)
      → get_elem? r.server.heap p ≡ some sl
      → sl.closed ≡ true
      → Turn r (record r { server = drop_entry sl.key p r.server })
  closes : Turn r (record {
    server = (close_first r.server).0;
    to_close = r.to_close ++ (close_first r.server).2;
  })
  closes_listener :
      (ps qs : List ℕ) (p : ℕ)
      → r.to_close ≡ ps ++ (p ∷ qs)
      → Turn r (record { server = close_at p r.server; to_close = ps ++ qs })

pub data Turns (r : Running) : Running → Type 0 where
  still : Turns r r
  then_turn : {s t : Running} → Turns r s → Turn s t → Turns r t

abbrev pub TrackedRun : Running → Type 0
TrackedRun r = Tracked r.to_close r.server

turn-TrackedRun : {r s : Running} → Turn r s → TrackedRun r → TrackedRun s
unfolding track_conn untrack_conn
turn-TrackedRun {r} (attaches key target who bound) h =
    attach_shared_listener-Tracked r.to_close key target who bound r.server h
turn-TrackedRun {r} (tracks who) h =
    if_both (λ (x : RemoteServer × Bool). Tracked r.to_close x.0) r.server.closed h h
turn-TrackedRun (untracks who) h = h
turn-TrackedRun {r} (leaves p who) h = detach_first-Tracked r.to_close p who r.server h
turn-TrackedRun {r} (shuts p) h = close_at-Tracked r.to_close p r.server h
turn-TrackedRun {r} (forgets p sl e c) h =
    drop_entry-Tracked r.to_close sl.key p r.server
      (λ x g. ap (λ (y : SharedListener). y.closed) (some-injective x sl (sym g ∙ e)) ∙ c) h
turn-TrackedRun {r} closes h = close_first-Tracked r.to_close r.server h
turn-TrackedRun {r} (closes_listener ps qs p e) h =
    close_listed-Tracked ps qs p r.server (subst (λ xs. Tracked xs r.server) e h)

fresh-TrackedRun : TrackedRun started
unfolding new_server
fresh-TrackedRun p sl g o = absurd cc

-- Whatever the goroutines of a new server do, and in whatever order, a listener that is not closed
-- is the one that the table has for its address; and once Close has set the server to closed, it
-- is one of those that Close has still to close, so that none is left open when Close is through.
pub started-TrackedRun : (r : Running) → Turns started r → TrackedRun r
started-TrackedRun r still = fresh-TrackedRun
started-TrackedRun r (then_turn t u) = turn-TrackedRun u (started-TrackedRun _ t)
