-- ===== src/Relay/RemoteServer/Runs.antt =====
-- A server of relay/remoteserver.go with one listener that control connection 1 holds.
use tunnelmanager.Prelude.{
  ◌*◌, ◌++◌, ◌∷◌, ◌≡◌, [], arith, false, get_elem?, ltb, none, ok, refl, some, text_eq, true,
}
use tunnelmanager.Relay.RemoteServer.{
  RemoteServer, find, attach_shared_listener, detach_first, detach_rest, new_server, close_at,
  drop_entry, delete, update, bind_new, join, close_first,
}
use tunnelmanager.Relay.Listener.{
  ListenerKey, SharedListener, attach, detach, close, open_listener, remove_order,
}
use tunnelmanager.Relay.Listener.Sole.{sole}
use tunnelmanager.Relay.RemoteServer.Race.{lost_registration}
use tunnelmanager.Relay.RemoteServer.Shutdown.Events.{
  Turns, attaches, leaves, shuts, forgets, still, then_turn, started, closes, Running, TrackedRun,
  started-TrackedRun,
}
use tunnelmanager.Relay.RemoteServer.Accepting.{listen_tunnel}
use tunnelmanager.Relay.RemoteServer.Accepting.Waiting.{EndsIn, listen_tunnel-EndsIn}

abbrev key : ListenerKey
key = record { port = 80; bind = [] }

abbrev one_left : RemoteServer
one_left = record {
  conns = 1 ∷ 2 ∷ [];
  closed = false;
  heap = sole key 1 (97 ∷ []) ∷ [];
  listeners = (key, 0) ∷ [];
}

lost_registration_example :
    let rs1 = (detach_first 0 1 one_left).0 in
    let joined = attach_shared_listener key (98 ∷ []) 2 true rs1 in
    let rs3 = detach_rest 0 joined.1 in
    ((detach_first 0 1 one_left).1 ≡ true)
    × (joined.0 ≡ ok 0)
    × (get_elem? rs3.heap 0 ≡ some (record (sole key 2 (98 ∷ [])) { closed = true }))
    × (find key rs3.listeners ≡ none)
unfolding find text_eq
lost_registration_example =
    lost_registration one_left key 0 1 2 (97 ∷ []) (98 ∷ []) true refl refl refl

abbrev other : ListenerKey
other = record { port = 81; bind = [] }

-- A connection attaches to a port, another one to the same port and a third to a second port; the
-- third leaves and its listener is closed. Then Close begins, the entry of the closed listener is
-- deleted, and the first listener is still open.
abbrev served : RemoteServer
served =
    (attach_shared_listener other [] 3 true
      (attach_shared_listener key [] 2 true
        (attach_shared_listener key [] 1 true new_server).1).1).1

abbrev shut : SharedListener
shut = record { key = other; conns = []; order = []; next = 0; closed = true }

abbrev left : RemoteServer
left = close_at 1 (detach_first 1 3 served).0

abbrev closing_server : Running
closing_server = record {
  server = drop_entry other 1 (close_first left).0;
  to_close = [] ++ (close_first left).2;
}

serving : Turns started closing_server
unfolding new_server attach_shared_listener find text_eq join bind_new open_listener attach
    detach_first detach remove_order update delete close_at close close_first
serving =
    then_turn
      (then_turn
        (then_turn
          (then_turn
            (then_turn
              (then_turn (then_turn still (attaches key [] 1 true)) (attaches key [] 2 true))
              (attaches other [] 3 true))
            (leaves 1 3))
          (shuts 1))
        closes)
      (forgets 1 shut refl refl)

started-TrackedRun_example : TrackedRun closing_server
started-TrackedRun_example = started-TrackedRun closing_server serving

-- A port that is free from the third turn on, at turns of 100 ms.
listen_tunnel-EndsIn_example :
    EndsIn
      (λ n. ltb 1 n)
      (λ n. 100 * n)
      (λ n. false)
      0
      (listen_tunnel (λ n. ltb 1 n) (λ n. 100 * n) (λ n. false) 0)
listen_tunnel-EndsIn_example =
    listen_tunnel-EndsIn (λ n. ltb 1 n) (λ n. 100 * n) (λ n. false) 0
      (omega arith, λ n. omega arith)
