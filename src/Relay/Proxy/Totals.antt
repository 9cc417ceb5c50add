-- ===== src/Relay/Proxy/Totals.antt =====
-- relay/tcpproxy.go: the statistics of a proxy over any order of its connections.
use tunnelmanager.Prelude.{
  ◌+◌, ◌-◌, ◌∷◌, ◌≡◌, Bool, List, Option, [], ap, if_both, if◌then◌else◌, ltb, none, refl, some,
  subst, true, ℕ,
}
use tunnelmanager.Relay.Proxy.{
  close, Proxy, no_stats, fresh_proxy, new_proxy, begin_relay, latest, add_stats, end_relay,
}
use tunnelmanager.Relay.Copy.{CopyError, Stats}

-- A connection that was accepted and dialled, or not; a relay that ends; Close.
pub data ProxyEvent : Type 0 where
  dialled : Bool → ProxyEvent
  relayed : Stats → ProxyEvent
  closes : ProxyEvent

-- The proxy, how many relays run, and the results of those that ended, the latest first.
pub record Serving : Type 0 where
  pub proxy : Proxy
  pub running : ℕ
  pub past : List Stats

-- A relay ends only while one runs.
unfoldable pub proxy_event : ProxyEvent → Serving → Serving
proxy_event (dialled works) s =
    if works then record s { proxy = begin_relay s.proxy; running = s.running + 1 } else s
proxy_event (relayed stats) s =
    if ltb 0 s.running
    then record s {
      proxy = end_relay stats s.proxy;
      running = s.running - 1;
      past = stats ∷ s.past;
    }
    else s
proxy_event closes s = record s { proxy = (close s.proxy).1 }

unfoldable pub proxy_events : List ProxyEvent → Serving → Serving
unfolding proxy_event
proxy_events [] s = s
proxy_events (e ∷ es) s = proxy_events es (proxy_event e s)

abbrev pub sum_of : (Stats → ℕ) → List Stats → ℕ
sum_of f [] = 0
sum_of f (s ∷ ss) = sum_of f ss + f s

-- The error of the latest relay that had one.
abbrev pub latest_of : (Stats → Option CopyError) → List Stats → Option CopyError
latest_of f [] = none
latest_of f (s ∷ ss) = latest (f s) (latest_of f ss)

pub record Totals (s : Serving) : Type 0 where
  pub count : s.proxy.conn_count ≡ s.running
  pub sent : s.proxy.stats.sent_bytes ≡ sum_of (λ x. x.sent_bytes) s.past
  pub received : s.proxy.stats.recv_bytes ≡ sum_of (λ x. x.recv_bytes) s.past
  pub sent_error : s.proxy.stats.sent_err ≡ latest_of (λ x. x.sent_err) s.past
  pub recv_error : s.proxy.stats.recv_err ≡ latest_of (λ x. x.recv_err) s.past

proxy_event-Totals : (e : ProxyEvent) (s : Serving) → Totals s → Totals (proxy_event e s)
unfolding proxy_event begin_relay end_relay add_stats close
proxy_event-Totals (dialled works) s v =
    if_both Totals works
      (record {
        count = ap (λ n. n + 1) v.count;
        sent = v.sent;
        received = v.received;
        sent_error = v.sent_error;
        recv_error = v.recv_error;
      })
      v
proxy_event-Totals (relayed stats) s v =
    if_both Totals (ltb 0 s.running)
      (record {
        count = ap (λ n. n - 1) v.count;
        sent = ap (λ n. n + stats.sent_bytes) v.sent;
        received = ap (λ n. n + stats.recv_bytes) v.received;
        sent_error = ap (latest stats.sent_err) v.sent_error;
        recv_error = ap (latest stats.recv_err) v.recv_error;
      })
      v
proxy_event-Totals closes s v = record {
  count = v.count;
  sent = v.sent;
  received = v.received;
  sent_error = v.sent_error;
  recv_error = v.recv_error;
}

proxy_events-Totals : (es : List ProxyEvent) (s : Serving) → Totals s → Totals (proxy_events es s)
unfolding proxy_events
proxy_events-Totals [] s v = v
proxy_events-Totals (e ∷ es) s v =
    proxy_events-Totals es (proxy_event e s) (proxy_event-Totals e s v)

-- After any order of dialled connections, ended relays and Close on a new proxy, the connection
-- count is the number of relays that run, and the statistics are the sums over the relays that
-- ended with the latest error of each direction.
pub new_proxy-Totals :
    (es : List ProxyEvent) (p : Proxy)
    → new_proxy true ≡ some p
    → Totals (proxy_events es (record { proxy = p; running = 0; past = [] }))
unfolding new_proxy fresh_proxy no_stats
new_proxy-Totals es p h =
    let made : fresh_proxy ≡ p = cc in
    proxy_events-Totals es (record { proxy = p; running = 0; past = [] })
      (subst (λ (x : Proxy). Totals (record { proxy = x; running = 0; past = [] })) made
        (record {
          count = refl;
          sent = refl;
          received = refl;
          sent_error = refl;
          recv_error = refl;
        }))
