-- ===== src/Relay/Proxy.antt =====
-- relay/tcpproxy.go, relay/chainproxy.go and relay/socks5proxy.go: Serve, handle, Stats and Close.
-- Dialling is an argument, and so is what Accept returns.
pub mod Totals
pub mod Socks
mod Runs
use tunnelmanager.Prelude.{
  ◌+◌, ◌-◌, ◌∷◌, Bool, Bytes, List, Option, [], false, if◌then◌else◌, none, not, some, true, ℕ,
}
use tunnelmanager.Relay.Copy.{CopyError, Stats}

-- Proxy and SocksProxy; a ChainProxy has no statistics. `done` says that the channel is closed.
pub record Proxy : Type 0 where
  pub listening : Bool
  pub closed : Bool
  pub done : Bool
  pub stats : Stats
  pub conn_count : ℕ

unfoldable pub no_stats : Stats
no_stats = record { sent_bytes = 0; recv_bytes = 0; sent_err = none; recv_err = none }

unfoldable pub fresh_proxy : Proxy
unfolding no_stats
fresh_proxy = record {
  listening = true;
  closed = false;
  done = false;
  stats = no_stats;
  conn_count = 0;
}

-- The result of a constructor, by that of net.Listen.
unfoldable pub new_proxy : Bool → Option Proxy
unfolding fresh_proxy
new_proxy opened = if opened then some fresh_proxy else none

-- A turn of Serve: it hands a connection to `go handle`, or returns, with an error or without one.
pub data ServeTurn : Type 0 where
  accepts : ServeTurn
  serve_ends : Bool → ServeTurn

unfoldable pub serve_turn : Bool → Proxy → ServeTurn
serve_turn accepted p = if accepted then accepts else serve_ends (not p.closed)

-- handle between the dial and Relay, and behind it. The count is an atomic.Int64.
unfoldable pub begin_relay : Proxy → Proxy
begin_relay p = record p { conn_count = p.conn_count + 1 }

abbrev pub latest : Option CopyError → Option CopyError → Option CopyError
latest none old = old
latest (some e) old = some e

unfoldable pub add_stats : Stats → Stats → Stats
add_stats s total = record {
  sent_bytes = total.sent_bytes + s.sent_bytes;
  recv_bytes = total.recv_bytes + s.recv_bytes;
  sent_err = latest s.sent_err total.sent_err;
  recv_err = latest s.recv_err total.recv_err;
}

unfoldable pub end_relay : Stats → Proxy → Proxy
unfolding add_stats
end_relay s p = record p { stats = add_stats s p.stats; conn_count = p.conn_count - 1 }

-- Close; the first result says whether closing the listener succeeded.
unfoldable pub close : Proxy → Bool × Proxy
close p = (p.listening, record p { closed = true; listening = false; done = true })

-- ChainProxy.handle dials the first hop only.
unfoldable pub chain_target : List Bytes → Option Bytes
chain_target [] = none
chain_target (hop ∷ hops) = some hop
