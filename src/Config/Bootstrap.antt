-- ===== src/Config/Bootstrap.antt =====
-- config/bootstrap.go. `getenv` is os.Getenv, which returns "" for a variable that is not set.
use hwhkit_go.Prelude.{String, ◌==◌, string_eq, if◌then◌else◌}

pub record BootstrapConfig : Type 0 where
  pub config_dir : String
  pub env : String

unfoldable pub default_bootstrap : (String → String) → BootstrapConfig
default_bootstrap getenv = record {
  config_dir = if getenv "HWHKIT_CONFIG_DIR" == "" then "config" else getenv "HWHKIT_CONFIG_DIR";
  env = if getenv "HWHKIT_ENV" == "" then "dev" else getenv "HWHKIT_ENV";
}
