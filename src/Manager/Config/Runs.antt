-- ===== src/Manager/Config/Runs.antt =====
-- Concrete files for manager/config.go.
use tunnelmanager.Prelude.{◌∷◌, ◌≡◌, [], arith, if◌then◌else◌, some, text_eq, true}
use tunnelmanager.Manager.Config.{
  default_config, Yaml, missing, content, Disk, load_config, save_config,
}
use tunnelmanager.Manager.Config.Files.{load_ignores_save}

-- A format that knows one configuration only.
abbrev yaml : Yaml
yaml = record { marshal = λ c. some (1 ∷ []); unmarshal = λ b. some default_config }

abbrev disk : Disk
disk = record {
  files = λ p. if text_eq p (100 ∷ []) then content (1 ∷ []) else missing;
  writable = true;
  tunnel_config = 101 ∷ [];
  default_path = 100 ∷ [];
}

load_ignores_save_example :
    load_config yaml [] (save_config yaml default_config [] disk).1 ≡ load_config yaml [] disk
load_ignores_save_example =
    load_ignores_save yaml default_config disk (λ e. ground arith) (λ e. ground arith)
