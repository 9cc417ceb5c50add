-- ===== src/Manager/Config.antt =====
-- manager/config.go: the configuration and its file. gopkg.in/yaml.v3 is a parameter.
pub mod Files
mod Runs
use tunnelmanager.Prelude.{
  Action, Bool, Bytes, List, Option, Result, [], err, if◌then◌else◌, none, ok, some, text_eq, ℤ,
}

pub record TunnelConfig : Type 0 where
  pub name : Bytes
  pub mode : Bytes
  pub local : Bytes
  pub remote : Bytes
  pub server : Bytes
  pub token : Bytes
  pub tls : Bool
  pub tls_cert : Bytes
  pub tls_key : Bytes
  pub tls_verify : Bool
  pub tls_trust_on_first_use : Bool
  pub tls_server_fingerprint : Bytes
  pub protocol : Bytes
  pub autostart : Bool
  pub group : Bytes
  pub hops : List Bytes
  pub connections : ℤ
  pub health_check : Bytes
  pub socks_user : Bytes
  pub socks_pass : Bytes

pub record GlobalConfig : Type 0 where
  pub log_file : Bytes
  pub control_socket : Bytes

pub record Config : Type 0 where
  pub tunnels : List TunnelConfig
  pub global : GlobalConfig

unfoldable pub default_config : Config
default_config = record { tunnels = []; global = record { log_file = []; control_socket = [] } }

-- yaml.Marshal and yaml.Unmarshal; `none` is an error.
pub record Yaml : Type 0 where
  pub marshal : Config → Option Bytes
  pub unmarshal : Bytes → Option Config

pub data FileRead : Type 0 where
  missing unreadable : FileRead
  content : Bytes → FileRead

-- The files that matter here, whether directories can be made and files written, the environment
-- variable TUNNEL_CONFIG, and DefaultConfigDir/config.yaml.
pub record Disk : Type 0 where
  pub files : Bytes → FileRead
  pub writable : Bool
  pub tunnel_config : Bytes
  pub default_path : Bytes

pub data ConfigError : Type 0 where
  read_error parse_error : ConfigError
  marshal_error write_error : ConfigError

-- Where LoadConfig reads, and where SaveConfig writes.
unfoldable pub load_path : Bytes → Disk → Bytes
load_path path d =
    let path1 = if text_eq path [] then d.tunnel_config else path in
    if text_eq path1 [] then d.default_path else path1

unfoldable pub save_path : Bytes → Disk → Bytes
save_path path d = if text_eq path [] then d.default_path else path

unfoldable pub load_config : Yaml → Bytes → Disk → Result ConfigError Config
unfolding load_path default_config
load_config y path d = elim (d.files (load_path path d)) [
  | missing ↦ ok default_config
  | unreadable ↦ err read_error
  | content b ↦ elim (y.unmarshal b) [ none ↦ err parse_error | some cfg ↦ ok cfg ]
]

write_file : Bytes → Bytes → Action Disk ConfigError (Unit {0})
write_file path b d =
    if d.writable
    then (ok tt, record d { files = λ p. if text_eq p path then content b else d.files p })
    else (err write_error, d)

unfoldable pub save_config : Yaml → Config → Bytes → Action Disk ConfigError (Unit {0})
unfolding write_file save_path
save_config y cfg path d = elim (y.marshal cfg) [
  | none ↦ (err (if d.writable then marshal_error else write_error), d)
  | some b ↦ write_file (save_path path d) b d
]
