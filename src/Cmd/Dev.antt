-- ===== src/Cmd/Dev.antt =====
-- cmd/hwhkit/dev.go, and `version` of cmd/hwhkit/main.go. `compose` runs docker with the arguments.
use hwhkit_go.Prelude.{
  String, ◌≡◌, Bool, Option, none, some, List, [], ◌∷◌, ◌++◌, append_assoc, ◌==◌, nat_eq, string_eq,
  if◌then◌else◌,
}
use hwhkit_go.Prelude.Text.{concat, join}
use hwhkit_go.Core.CoreError.{Error, Result, ok, err}
use hwhkit_go.Core.Bootstrap.{Loaded, mapping}
use hwhkit_go.Config.AppConfig.{AppConfig}
use hwhkit_go.Config.Bootstrap.{BootstrapConfig}
use hwhkit_go.BuildInfo
use hwhkit_go.BuildInfo.{Variables}

abbrev when : Bool → String → List String
when b s = if b then s ∷ [] else []

unfoldable pub detect : {F : Type 0} → AppConfig F → List String
detect cfg =
    when cfg.integrations.sql.postgres.enabled "postgres"
    ++ when cfg.integrations.redis.enabled "redis"
    ++ when cfg.integrations.mongodb.enabled "mongodb"
    ++ when cfg.integrations.messaging.nats.enabled "nats"
    ++ when cfg.integrations.vector.qdrant.enabled "qdrant"
    ++ when cfg.integrations.neo4j.enabled "neo4j"
    ++ when cfg.integrations.storage.s3.enabled "minio"
    ++ when cfg.observability.otel.enabled "jaeger"

-- What `hwhkit dev` prints, the arguments that docker is run with, if it is, and the error.
unfoldable pub dev :
    {F : Type 0}
    → (BootstrapConfig → Result (Loaded F))
    → (List String → Option Error)
    → String
    → String
    → List String × (Option (List String) × Option Error)
unfolding detect
dev load compose config_dir env = elim (load (record { config_dir = config_dir; env = env })) [
  | err e ↦ ([], (none, some e))
  | ok loaded ↦
      let svcs = detect loaded.config in
      elim svcs [
        | [] ↦ ("no integrations enabled; nothing to bring up" ∷ [], (none, none))
        | svc ∷ more ↦
            let args = "compose" ∷ "up" ∷ "-d" ∷ svc ∷ more in
            (
              concat ("starting services: " ∷ join ", " (svc ∷ more) ∷ []) ∷ [],
              (some args, compose args),
            )
      ]
]

unfoldable pub version_line : Variables → String → String
unfolding BuildInfo.get
version_line vars runtime_version =
    let info = BuildInfo.get vars runtime_version in
    concat (
      "hwhkit " ∷ info.version ∷ " (sha=" ∷ info.git_sha ∷ ", built=" ∷ info.build_time ∷ ", go="
      ∷ info.go_version ∷ ")" ∷ [])

-- The container of an integration.
abbrev pub service_name : String → String
service_name key = if key == "s3" then "minio" else key

-- The containers of the enabled rows of the table of integrations, then `more`. There is none for
-- Alibaba's OSS.
abbrev pub containers : List (Bool × String) → List String → List String
containers [] more = more
containers ((enabled, key) ∷ rows) more =
    let rest = containers rows more in
    if key == "oss" then rest else when enabled (service_name key) ++ rest

-- `hwhkit dev` starts a container for each integration that the bootstrap asks a provider of,
-- except OSS, in the order of the bootstrap's table, and then one for the tracing if it is enabled.
pub detect-eq-containers :
    {F : Type 0} (cfg : AppConfig F)
    → detect cfg ≡ containers (mapping cfg) (when cfg.observability.otel.enabled "jaeger")
unfolding detect
detect-eq-containers cfg = simp append_assoc
