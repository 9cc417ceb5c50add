-- ===== src/Relay/RemoteServer/Race.antt =====
-- A control connection that registers while the last one leaves (relay/remoteserver.go).
use tunnelmanager.Prelude.{
  ◌∷◌, ◌≡◌, Bool, Bytes, List, [], arith, false, get_elem?, none, ok, refl, some, true, ℕ,
}
use tunnelmanager.Relay.RemoteServer.{
  delete, update, RemoteServer, find, attach_shared_listener, detach_first, detach_rest,
}
use tunnelmanager.Relay.RemoteServer.Shutdown.Tables.{get_elem?-update}
use tunnelmanager.Relay.Listener.{ListenerKey}
use tunnelmanager.Relay.Listener.Sole.{sole, empty, detach-sole, attach-empty, close-sole}

find-delete : (k : ListenerKey) (m : List (ListenerKey × ℕ)) → find k (delete k m) ≡ none
unfolding find delete
find-delete k [] = refl
find-delete k ((j, p) ∷ m) = ground (arith, find-delete k m)

-- On a server that is not closed, when the only control connection of a listener leaves and
-- another one attaches before the listener is closed, the newcomer is told that it joined, yet its
-- listener is then closed and gone from the table.
pub lost_registration :
    (rs : RemoteServer) (key : ListenerKey) (p a b : ℕ) (ta tb : Bytes) (bound : Bool)
    → rs.closed ≡ false
    → find key rs.listeners ≡ some p
    → get_elem? rs.heap p ≡ some (sole key a ta)
    → let rs1 = (detach_first p a rs).0 in
      let joined = attach_shared_listener key tb b bound rs1 in
      let rs3 = detach_rest p joined.1 in
      ((detach_first p a rs).1 ≡ true)
      × (joined.0 ≡ ok p)
      × (get_elem? rs3.heap p ≡ some (record (sole key b tb) { closed = true }))
      × (find key rs3.listeners ≡ none)
unfolding detach_first attach_shared_listener detach_rest
lost_registration rs key p a b ta tb bound live entry there = ground (
  arith,
  detach-sole key a ta,
  attach-empty key b tb,
  get_elem?-update p (empty key) (sole key a ta) rs.heap there,
  get_elem?-update p (sole key b tb) (empty key) (update p (empty key) rs.heap),
  get_elem?-update p (record (sole key b tb) { closed = true }) (sole key b tb)
      (update p (sole key b tb) (update p (empty key) rs.heap)),
  find-delete key rs.listeners,
  close-sole key b tb,
)
