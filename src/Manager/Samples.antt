-- ===== src/Manager/Samples.antt =====
-- A concrete manager with one configured tunnel, for the tests of manager/manager.go.
use tunnelmanager.Prelude.{◌∷◌, Bool, Bytes, [], codes, false, pos, some, true}
use tunnelmanager.Manager.Tunnels.{Manager}
use tunnelmanager.Manager.Config.{TunnelConfig, default_config, Yaml, unreadable, content, Disk}

abbrev pub configured : Bytes → Bool → TunnelConfig
configured name autostart = record {
  name = name;
  mode = codes "local";
  local = codes "127.0.0.1:1";
  remote = codes "host:2";
  server = [];
  token = [];
  tls = false;
  tls_cert = [];
  tls_key = [];
  tls_verify = false;
  tls_trust_on_first_use = false;
  tls_server_fingerprint = [];
  protocol = codes "tcp";
  autostart = autostart;
  group = [];
  hops = [];
  connections = pos 0;
  health_check = [];
  socks_user = [];
  socks_pass = [];
}

-- A format that reads every file as the empty configuration.
abbrev pub yaml : Yaml
yaml = record { marshal = λ c. some (1 ∷ []); unmarshal = λ b. some default_config }

abbrev pub disk : Bool → Disk
disk writable = record {
  files = λ p. content (1 ∷ []);
  writable = writable;
  tunnel_config = [];
  default_path = 100 ∷ [];
}

abbrev pub unreadable_disk : Disk
unreadable_disk = record {
  files = λ p. unreadable;
  writable = true;
  tunnel_config = [];
  default_path = 100 ∷ [];
}

abbrev pub idle : Disk → Manager
idle d = record {
  cfg = record {
    tunnels = configured (97 ∷ []) true ∷ [];
    global = record { log_file = []; control_socket = [] };
  };
  cfg_path = 99 ∷ [];
  tunnels = [];
  disk = d;
}
