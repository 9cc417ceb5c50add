-- ===== src/Manager/Config/Files.antt =====
-- SaveConfig and LoadConfig of manager/config.go on one path argument.
use tunnelmanager.Prelude.{
  ◌≡◌, ◌≢◌, ◌⊎◌, Bytes, [], arith, ok, some, text_eq_iff, text_eq_refl, true,
}
use tunnelmanager.Manager.Config.{
  Config, Yaml, Disk, load_path, save_path, load_config, save_config,
}

-- What a write to `p` leaves to read at `q`.
save_config_saved :
    (y : Yaml) (cfg : Config) (path b : Bytes) (d : Disk)
    → y.marshal cfg ≡ some b
    → d.writable ≡ true
    → (save_config y cfg path d).0 ≡ ok tt
unfolding save_config
save_config_saved y cfg path b d h w = ground arith

-- A configuration that SaveConfig has written to a writable disk, with a path argument or without
-- TUNNEL_CONFIG, is what LoadConfig with the same argument returns, when the format encodes it and
-- reads back what it writes.
pub load_config-save_config :
    (y : Yaml) (cfg : Config) (path b : Bytes) (d : Disk)
    → y.marshal cfg ≡ some b
    → y.unmarshal b ≡ some cfg
    → d.writable ≡ true
    → (path ≢ []) ⊎ (d.tunnel_config ≡ [])
    → ((save_config y cfg path d).0 ≡ ok tt)
      × (load_config y path (save_config y cfg path d).1 ≡ ok cfg)
unfolding save_config load_config load_path save_path
load_config-save_config y cfg path b d m u w same = ground (
  arith,
  text_eq_iff path [],
  text_eq_iff d.tunnel_config [],
  text_eq_refl path,
  text_eq_refl d.default_path,
)

-- With an empty path argument and TUNNEL_CONFIG naming another file than the default one,
-- LoadConfig returns the same before and after any SaveConfig.
pub load_ignores_save :
    (y : Yaml) (cfg : Config) (d : Disk)
    → d.tunnel_config ≢ []
    → d.tunnel_config ≢ d.default_path
    → load_config y [] (save_config y cfg [] d).1 ≡ load_config y [] d
unfolding save_config load_config load_path save_path
load_ignores_save y cfg d set other =
    ground (arith, text_eq_iff d.tunnel_config [], text_eq_iff d.tunnel_config d.default_path)
