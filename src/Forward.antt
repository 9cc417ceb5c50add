-- ===== src/Forward.antt =====
-- main.go: the forwarding specifications of the command line, and the tunnel that `add` makes of
-- its flags.
pub mod Agreement
pub mod RoundTrip
pub mod Added
pub mod PlainTls
mod Runs
use tunnelmanager.Prelude.{
  ◌&&◌, ◌++◌, ◌==◌, Bool, Bytes, Option, Result, [], codes, decimal, err, false, has_byte,
  if◌then◌else◌, join_host_port, length, none, not, ok, parse_u16, pos, some, true, ℕ,
}
use tunnelmanager.Manager.RemoteSpec.{
  SpecError, empty_spec, ipv6_literal, bad_format, empty_host, bind_unsupported, bad_port,
  bad_host_port, has_bracket, split_spec, split_front,
}
use tunnelmanager.Manager.Config.{TunnelConfig}

-- `bind` and `host` are text, the ports 16-bit numbers.
pub record ForwardSpec : Type 0 where
  pub bind : Bytes
  pub port : ℕ
  pub host : Bytes
  pub host_port : ℕ

-- parsePort.
unfoldable pub parse_port : Bytes → Option ℕ
parse_port s = if length s == 0 then none else parse_u16 s

-- The end of parseForwardSpec, behind the checks on the parts.
parse_parts : Bytes → Bytes → Bytes → Bytes → Result SpecError ForwardSpec
parse_parts bind port host host_port = elim (parse_port port) [
  | none ↦ err (bad_port port)
  | some p ↦ elim (parse_port host_port) [
    | none ↦ err (bad_host_port host_port)
    | some hp ↦ ok (record { bind = bind; port = p; host = host; host_port = hp })
  ]
]

unfoldable pub parse_forward_spec : Bytes → Bytes → Bool → Result SpecError ForwardSpec
unfolding parse_parts
parse_forward_spec spec default_bind allow_bind =
    if length spec == 0
    then err empty_spec
    else if has_bracket spec
    then err ipv6_literal
    else elim (split_spec spec) [
      | none ↦ err bad_format
      | some (front, host, host_port) ↦
          let (bind, port) = split_front front in
          if length host == 0
          then err empty_host
          else if not (length bind == 0) && not allow_bind
          then err bind_unsupported
          else parse_parts (if length bind == 0 then default_bind else bind) port host host_port
    ]

-- parseLocalSpec: the address to listen on and the one to dial.
unfoldable pub parse_local_spec : Bytes → Result SpecError (Bytes × Bytes)
parse_local_spec spec = elim (parse_forward_spec spec (codes "127.0.0.1") true) [
  | err e ↦ err e
  | ok fs ↦
      ok (join_host_port fs.bind (decimal fs.port), join_host_port fs.host (decimal fs.host_port))
]

-- parseRemoteSpec of main.go.
unfoldable pub parse_remote_flag : Bytes → Result SpecError (Bytes × ℕ × Bytes)
parse_remote_flag spec = elim (parse_forward_spec spec (codes "0.0.0.0") true) [
  | err e ↦ err e
  | ok fs ↦ ok (fs.bind, fs.port, join_host_port fs.host (decimal fs.host_port))
]

pub record AddParams : Type 0 where
  pub name : Bytes
  pub local : Bytes
  pub remote : Bytes
  pub dynamic : Bytes
  pub server : Bytes
  pub token : Bytes
  pub protocol : Bytes
  pub tls : Bool
  pub tls_verify : Bool
  pub tls_cert : Bytes
  pub tls_key : Bytes
  pub tls_trust_on_first_use : Bool
  pub tls_server_fingerprint : Bytes
  pub group : Bytes
  pub autostart : Bool
  pub socks_user : Bytes
  pub socks_pass : Bytes

pub data AddError : Type 0 where
  bad_spec : SpecError → AddError
  no_server no_mode : AddError

unfoldable pub default_name : Bytes → Bytes → Bytes
default_name name fallback = if length name == 0 then fallback else name

unfoldable pub normalize_listen_addr : Bytes → Bytes
normalize_listen_addr spec = if has_byte 58 spec then spec else codes "127.0.0.1:" ++ spec

-- `var tc manager.TunnelConfig`, with the group and autostart that the end sets.
unfoldable pub zero_config : AddParams → TunnelConfig
zero_config p = record {
  name = [];
  mode = [];
  local = [];
  remote = [];
  server = [];
  token = [];
  tls = false;
  tls_cert = [];
  tls_key = [];
  tls_verify = false;
  tls_trust_on_first_use = false;
  tls_server_fingerprint = [];
  protocol = [];
  autostart = p.autostart;
  group = p.group;
  hops = [];
  connections = pos 0;
  health_check = [];
  socks_user = [];
  socks_pass = [];
}

-- The assignments of the three cases.
pub local_tunnel : Bytes → Bytes → AddParams → TunnelConfig
local_tunnel listen target p = record (zero_config p) {
  mode = codes "local";
  local = listen;
  remote = target;
  protocol = p.protocol;
  name = default_name p.name (codes "local-" ++ p.local);
}

pub local_config : AddParams → Result AddError TunnelConfig
unfolding local_tunnel
local_config p = elim (parse_local_spec p.local) [
  | err e ↦ err (bad_spec e)
  | ok (listen, target) ↦ ok (local_tunnel listen target p)
]

pub remote_tunnel : AddParams → TunnelConfig
remote_tunnel p = record (zero_config p) {
  mode = codes "remote";
  remote = p.remote;
  server = p.server;
  token = p.token;
  tls = p.tls;
  tls_verify = p.tls_verify;
  tls_cert = p.tls_cert;
  tls_key = p.tls_key;
  tls_trust_on_first_use = p.tls_trust_on_first_use;
  tls_server_fingerprint = p.tls_server_fingerprint;
  name = default_name p.name (codes "remote-" ++ p.remote);
}

pub remote_config : AddParams → Result AddError TunnelConfig
unfolding remote_tunnel
remote_config p = if length p.server == 0 then err no_server else ok (remote_tunnel p)

pub dynamic_tunnel : AddParams → TunnelConfig
dynamic_tunnel p = record (zero_config p) {
  mode = codes "dynamic";
  local = normalize_listen_addr p.dynamic;
  socks_user = p.socks_user;
  socks_pass = p.socks_pass;
  name = default_name p.name (codes "dynamic-" ++ p.dynamic);
}

-- The first of -L, -R and -D that is given decides.
unfoldable pub build_tunnel_config : AddParams → Result AddError TunnelConfig
unfolding local_config remote_config dynamic_tunnel
build_tunnel_config p =
    if not (length p.local == 0)
    then local_config p
    else if not (length p.remote == 0)
    then remote_config p
    else if not (length p.dynamic == 0)
    then ok (dynamic_tunnel p)
    else err no_mode
