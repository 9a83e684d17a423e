-- ===== src/BuildInfo.antt =====
-- buildinfo/buildinfo.go. The linker may set the three variables, and `runtime_version` is
-- runtime.Version().
use hwhkit_go.Prelude.{String}

pub record Variables : Type 0 where
  pub version_var : String
  pub git_sha_var : String
  pub build_time_var : String

abbrev pub unset : Variables
unset = record { version_var = "dev"; git_sha_var = "unknown"; build_time_var = "unknown" }

pub record Info : Type 0 where
  pub version : String
  pub git_sha : String
  pub build_time : String
  pub go_version : String

unfoldable pub get : Variables → String → Info
get vars runtime_version = record {
  version = vars.version_var;
  git_sha = vars.git_sha_var;
  build_time = vars.build_time_var;
  go_version = runtime_version;
}
