-- ===== src/Relay/RemoteServer.antt =====
-- relay/remoteserver.go: the server's tables, and the calls on them as the steps between which
-- other goroutines may run. Control connections and shared listeners are pointers.
pub mod Accepting
pub mod Shutdown
pub mod Race
mod Runs
use tunnelmanager.Prelude.{
  ◌++◌, ◌==◌, ◌>>=◌, ◌>>◌, ◌∷◌, Action, Bool, Bytes, List, Option, [], err, false, get_elem?,
  if◌then◌else◌, length, none, ok, pure, some, suc, text_eq, true, wrap, zero, ℕ,
}
use tunnelmanager.Relay.Listener.{
  attach, detach, close, SharedListener, open_listener, ListenerKey, key_eq,
}
use tunnelmanager.Relay.Register.{RemoteTunnel}
use tunnelmanager.Relay.Conn.{Conn}
use tunnelmanager.Relay.Auth.{AuthError, auth_server, RegisterError, register_server}

pub record RemoteServer : Type 0 where
  pub conns : List ℕ  -- the control connections that Close tears down
  pub closed : Bool
  pub heap : List SharedListener
  pub listeners : List (ListenerKey × ℕ)

unfoldable pub new_server : RemoteServer
new_server = record { conns = []; closed = false; heap = []; listeners = [] }

-- trackConn: a server that is closing takes no more connections.
unfoldable pub track_conn : ℕ → RemoteServer → RemoteServer × Bool
track_conn who rs = if rs.closed then (rs, false) else (record rs { conns = who ∷ rs.conns }, true)

delete_conn : ℕ → List ℕ → List ℕ
delete_conn who [] = []
delete_conn who (c ∷ cs) = let rest = delete_conn who cs in if c == who then rest else c ∷ rest

unfoldable pub untrack_conn : ℕ → RemoteServer → RemoteServer
unfolding delete_conn
untrack_conn who rs = record rs { conns = delete_conn who rs.conns }

pub find : ListenerKey → List (ListenerKey × ℕ) → Option ℕ
find k [] = none
find k ((j, p) ∷ m) = if key_eq j k then some p else find k m

pub delete : ListenerKey → List (ListenerKey × ℕ) → List (ListenerKey × ℕ)
delete k [] = []
delete k ((j, p) ∷ m) = let rest = delete k m in if key_eq j k then rest else (j, p) ∷ rest

pub update : ℕ → SharedListener → List SharedListener → List SharedListener
update p sl [] = []
update zero sl (x ∷ heap) = sl ∷ heap
update (suc p) sl (x ∷ heap) = x ∷ update p sl heap

pub data AttachError : Type 0 where
  server_closed listen_failed : AttachError

-- The part of attachSharedListener that binds a new listener. `bound` is what listenTunnel comes
-- back with: whether net.Listen succeeded before the deadline and before the connection died.
pub bind_new : ListenerKey → Bytes → ℕ → Bool → Action RemoteServer AttachError ℕ
unfolding delete
bind_new key target who bound rs =
    if bound
    then (
      ok (length rs.heap),
      record rs {
        heap = rs.heap ++ (open_listener key who target ∷ []);
        listeners = (key, length rs.heap) ∷ delete key rs.listeners;
      },
    )
    else (err listen_failed, rs)

pub join : ListenerKey → Bytes → ℕ → Bool → ℕ → SharedListener → Action RemoteServer AttachError ℕ
unfolding bind_new update delete
join key target who bound p sl rs =
    if sl.closed
    then bind_new key target who bound (record rs { listeners = delete key rs.listeners })
    else (ok p, record rs { heap = update p (attach who target sl) rs.heap })

-- attachSharedListener, which runs under rs.mu: the pointer of the listener joined or made.
unfoldable pub attach_shared_listener :
    ListenerKey → Bytes → ℕ → Bool → Action RemoteServer AttachError ℕ
unfolding join bind_new find
attach_shared_listener key target who bound rs =
    if rs.closed then (err server_closed, rs) else elim (find key rs.listeners) [
      | none ↦ bind_new key target who bound rs
      | some p ↦ elim (get_elem? rs.heap p) [
        | none ↦ bind_new key target who bound rs
        | some sl ↦ join key target who bound p sl rs
      ]
    ]

-- detachSharedListener up to the unlock of sl.mu; the flag is shouldClose.
unfoldable pub detach_first : ℕ → ℕ → RemoteServer → RemoteServer × Bool
unfolding update
detach_first p who rs = elim (get_elem? rs.heap p) [
  | none ↦ (rs, false)
  | some sl ↦
      let (sl', should_close) = detach who sl in
      (record rs { heap = update p sl' rs.heap }, should_close)
]

pub close_at : ℕ → RemoteServer → RemoteServer
unfolding update
close_at p rs = elim (get_elem? rs.heap p) [
  | none ↦ rs
  | some sl ↦ record rs { heap = update p (close sl).0 rs.heap }
]

pub drop_entry : ListenerKey → ℕ → RemoteServer → RemoteServer
unfolding find delete
drop_entry key p rs = elim (find key rs.listeners) [
  | none ↦ rs
  | some q ↦ if q == p then record rs { listeners = delete key rs.listeners } else rs
]

-- What follows when shouldClose is set: sl.Close(), and then, under rs.mu, the entry is deleted if
-- it is still this listener's.
unfoldable pub detach_rest : ℕ → RemoteServer → RemoteServer
unfolding close_at drop_entry
detach_rest p rs =
    let rs' = close_at p rs in
    elim (get_elem? rs'.heap p) [ none ↦ rs' | some sl ↦ drop_entry sl.key p rs' ]

-- detachSharedListener with nothing in between.
unfoldable pub detach_shared_listener : ℕ → ℕ → RemoteServer → RemoteServer
detach_shared_listener p who rs =
    let (rs', should_close) = detach_first p who rs in
    if should_close then detach_rest p rs' else rs'

-- `for _, sl := range rs.listeners`.
pub listed : List (ListenerKey × ℕ) → List ℕ
listed [] = []
listed ((k, p) ∷ m) = p ∷ listed m

-- Close under rs.mu: the control connections and the listeners that it closes after the unlock come
-- back beside the server; a second call finds nothing to do.
unfoldable pub close_first : RemoteServer → RemoteServer × List ℕ × List ℕ
unfolding listed
close_first rs =
    if rs.closed then (rs, [], []) else (record rs { closed = true }, rs.conns, listed rs.listeners)

pub data ClientError : Type 0 where
  auth_failed : AuthError → ClientError
  register_failed : RegisterError → ClientError

-- handleClient up to the control connection: with an empty token no client has to authenticate.
unfoldable pub admit_client : Bytes → Action Conn ClientError (List RemoteTunnel)
admit_client token = do
  if text_eq token [] then pure tt else wrap auth_failed (auth_server token)
  wrap register_failed register_server

-- What handleClient comes to: the client is turned away, the server is closing, or a goroutine
-- serves each of the tunnels until the control connection is done.
pub data Handled : Type 0 where
  turned_away : ClientError → Handled
  closing : Handled
  serves : List RemoteTunnel → Handled

-- handleClient up to its wait; `who` is the new control connection.
unfoldable pub handle_client : Bytes → ℕ → Conn → RemoteServer → Handled × Conn × RemoteServer
unfolding admit_client track_conn
handle_client token who conn rs =
    let (r, conn') = admit_client token conn in
    elim r [
      | err e ↦ (turned_away e, conn', rs)
      | ok tunnels ↦
          let (rs', tracked) = track_conn who rs in
          (if tracked then serves tunnels else closing, conn', rs')
    ]
