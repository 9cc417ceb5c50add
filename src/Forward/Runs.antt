-- ===== src/Forward/Runs.antt =====
-- Concrete specifications and flags of main.go.
use tunnelmanager.Prelude.{
  ◌<◌, ◌∷◌, ◌≡◌, [], arith, codes, decimal, err, false, has_byte, join_host_port, length, ok, refl,
  some, text_eq, true, ℕ,
}
use tunnelmanager.Forward.{
  parse_remote_flag, AddParams, dynamic_tunnel, build_tunnel_config, parse_local_spec, zero_config,
  local_tunnel, local_config,
}
use tunnelmanager.Manager.Tunnels.{run_dynamic, choose_runner}
use tunnelmanager.Manager.RemoteSpec.{parse_remote_spec}
use tunnelmanager.Forward.RoundTrip.{IsHost, parse_forward_spec-spec_text}
use tunnelmanager.Forward.Added.{build_tunnel_config-choose_runner}
use tunnelmanager.Forward.Agreement.{accepted_as, parse_remote_flag-parse_remote_spec}
use tunnelmanager.Manager.Config.{TunnelConfig}
use tunnelmanager.Manager.Runners.{proxy, open_local}
use tunnelmanager.Forward.PlainTls.{is_plain, added_local_plain}
use tunnelmanager.Relay.Identity.{mkdir_failed}

abbrev host_a : IsHost (97 ∷ [])
unfolding has_byte
host_a = record { some_host = omega arith; no_colon = refl; no_bracket = refl }

parse_remote_flag-parse_remote_spec_example :
    accepted_as (parse_remote_flag (codes "80:a:81"))
    ≡ accepted_as (parse_remote_spec (codes "80:a:81"))
parse_remote_flag-parse_remote_spec_example = parse_remote_flag-parse_remote_spec (codes "80:a:81")

abbrev flags : AddParams
flags = record {
  name = [];
  local = [];
  remote = [];
  dynamic = codes "1080";
  server = [];
  token = [];
  protocol = [];
  tls = false;
  tls_verify = false;
  tls_cert = [];
  tls_key = [];
  tls_trust_on_first_use = false;
  tls_server_fingerprint = [];
  group = codes "g";
  autostart = true;
  socks_user = [];
  socks_pass = [];
}

build_tunnel_config-choose_runner_example :
    (choose_runner (dynamic_tunnel flags) ≡ some run_dynamic)
    × (0 < length (dynamic_tunnel flags).name)
    × ((dynamic_tunnel flags).group ≡ codes "g")
    × ((dynamic_tunnel flags).autostart ≡ true)
unfolding build_tunnel_config
build_tunnel_config-choose_runner_example =
    build_tunnel_config-choose_runner flags (dynamic_tunnel flags) refl

abbrev tls_flags : AddParams
tls_flags = record flags { local = codes "80:a:81"; dynamic = []; tls = true }

abbrev added : TunnelConfig
added = local_tunnel (codes "127.0.0.1:80") (codes "a:81") tls_flags

tls_built : build_tunnel_config tls_flags ≡ ok added
unfolding build_tunnel_config local_config parse_local_spec decimal has_byte join_host_port
tls_built = rw (
  build_tunnel_config,
  local_config,
  parse_local_spec,
  parse_forward_spec-spec_text 80 81 (97 ∷ []) (codes "127.0.0.1") true (omega arith) (omega arith)
      host_a,
)

added_local_plain_example : is_plain {K = ℕ} (proxy (codes "127.0.0.1:80") (codes "a:81")) ≡ true
unfolding local_tunnel zero_config open_local text_eq
added_local_plain_example =
    added_local_plain {K = ℕ} (λ l. true) tls_flags added (err mkdir_failed)
      (proxy (codes "127.0.0.1:80") (codes "a:81")) refl tls_built refl
