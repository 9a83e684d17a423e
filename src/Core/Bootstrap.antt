-- ===== src/Core/Bootstrap.antt =====
-- core/bootstrap.go, core/provider.go and core/built.go. The Go context that is passed along is
-- inside the functions of a provider and of the application. `App` is what the providers
-- act on: the application context with all that is behind it, such as Handles and clients. The
-- health registry and the shutdown token live at two addresses of the context.
pub mod Mapping
pub mod Providers
pub mod Outcome
pub mod Degraded
pub mod Winners
use hwhkit_go.Prelude.{
  ℕ, String, Option, none, some, List, [], ◌∷◌, ◌++◌, Bool, true, false, not, ◌&&◌, if◌then◌else◌,
  or_else,
}
use hwhkit_go.Core.CoreError.{Error, wrapped, feature_mismatch_error, Result, ok, err, ◌>>=◌}
use hwhkit_go.Core.Features
use hwhkit_go.Core.Features.{Features}
use hwhkit_go.Core.Health.{Check, Registry, new_registry, register}
use hwhkit_go.Core.AppContext
use hwhkit_go.Core.AppContext.{AppContext, Pointer}
use hwhkit_go.Core.Shutdown.{Token}
use hwhkit_go.Config.AppConfig.{AppConfig}
use hwhkit_go.Config.Bootstrap.{BootstrapConfig, default_bootstrap}

-- The interface IntegrationProvider. Init returns the state that it leaves, also with an error.
pub record Provider (F App : Type 0) : Type 0 where
  pub key : String
  pub enabled : AppConfig F → Bool
  pub required : AppConfig F → Bool
  pub init : App → AppConfig F → App × Option Error
  pub health_check : App → AppConfig F → Option Check
  pub shutdown : App → App × Option Error

-- BaseProvider: the defaults of Required, HealthCheck and Shutdown.
unfoldable pub base_required {ℓ} : {C : Type ℓ} → C → Bool
base_required cfg = true

unfoldable pub base_health_check {ℓ} : {App : Type 0} {C : Type ℓ} → App → C → Option Check
base_health_check app cfg = none

unfoldable pub base_shutdown : {App : Type 0} → App → App × Option Error
base_shutdown app = (app, none)

pub record Loaded (F : Type 0) : Type 0 where
  pub config : AppConfig F
  pub applied_sources : List String

-- The state of the loop over the providers.
pub record Progress (F App : Type 0) : Type 0 where
  pub app : App
  pub health : Registry
  pub initialized : List String
  pub degraded : List String
  pub retained : List (Provider F App)

pub record BuiltApplication (F App Router : Type 0) : Type 0 where
  pub router : Router
  pub app_ctx : App
  pub cfg : AppConfig F
  pub bootstrap : BootstrapConfig
  pub applied_sources : List String
  pub initialized_integrations : List String
  pub degraded_integrations : List String
  pub shutdown_token : Token
  pub health_registry : Registry
  pub providers : List (Provider F App)
  pub metrics_registry : Option ℕ

-- SetMetricsRegistry and SetRouter.
unfoldable pub set_metrics_registry :
    {F App Router : Type 0} → BuiltApplication F App Router → ℕ → BuiltApplication F App Router
set_metrics_registry b r = record b { metrics_registry = some r }

unfoldable pub set_router :
    {F App Router : Type 0} → BuiltApplication F App Router → Router → BuiltApplication F App Router
set_router b r = record b { router = r }

-- The rows of the table in validateFeatureMapping.
abbrev pub mapping : {F : Type 0} → AppConfig F → List (Bool × String)
mapping cfg =
    (cfg.integrations.sql.postgres.enabled, "postgres")
    ∷ (cfg.integrations.redis.enabled, "redis")
    ∷ (cfg.integrations.mongodb.enabled, "mongodb")
    ∷ (cfg.integrations.messaging.nats.enabled, "nats")
    ∷ (cfg.integrations.vector.qdrant.enabled, "qdrant")
    ∷ (cfg.integrations.neo4j.enabled, "neo4j")
    ∷ (cfg.integrations.storage.s3.enabled, "s3")
    ∷ (cfg.integrations.oss.enabled, "oss")
    ∷ []

-- The loop of validateFeatureMapping, which returns at the first row that fails.
unfoldable pub check_rows : (String → String) → Features → List (Bool × String) → Option Error
check_rows quote features [] = none
check_rows quote features ((enabled, key) ∷ rows) =
    if enabled && not (Features.contains (some features) key)
    then some (feature_mismatch_error quote key)
    else check_rows quote features rows

module _ {F : Type 0} (quote : String → String) where
  unfoldable pub validate_feature_mapping : AppConfig F → Features → Option Error
  unfolding check_rows
  validate_feature_mapping cfg features = check_rows quote features (mapping cfg)

module _ {F App : Type 0} (quote : String → String) where
  -- One round of the loop over the providers; `err` is an early return.
  unfoldable pub init_provider :
      AppConfig F → Features → Provider F App → Progress F App → Result (Progress F App)
  init_provider cfg features p s =
      if not (p.enabled cfg)
      then ok s
      else if not (Features.contains (some features) p.key)
      then err (feature_mismatch_error quote p.key)
      else let (app, failure) = p.init s.app cfg in
        elim failure [
          | some e ↦
              if p.required cfg
              then err e
              else ok (record s { app = app; degraded = s.degraded ++ p.key ∷ [] })
          | none ↦ ok (record s {
            app = app;
            health = register s.health (p.health_check app cfg);
            initialized = s.initialized ++ p.key ∷ [];
            retained = s.retained ++ p ∷ [];
          })
        ]

  unfoldable pub init_providers :
      AppConfig F → Features → List (Provider F App) → Progress F App → Result (Progress F App)
  init_providers cfg features [] s = ok s
  init_providers cfg features (p ∷ ps) s = do
    s' ← init_provider cfg features p s
    init_providers cfg features ps s'

-- Addresses of the two objects that BootstrapWith makes.
abbrev pub token_ptr : Pointer
token_ptr = record { elem_type = "shutdown.Token"; address = 0 }

abbrev pub registry_ptr : Pointer
registry_ptr = record { elem_type = "health.Registry"; address = 1 }

abbrev pub first_context : AppContext
first_context =
    let a = AppContext.insert AppContext.new "shutdown.Token" false 0 in
    let b = AppContext.insert_named a "shutdown" token_ptr in
    let c = AppContext.insert b "health.Registry" false 1 in
    AppContext.insert_named c "health" registry_ptr

-- `enter` puts the new context, with a new shutdown token behind it, into the state that there is.
abbrev pub start : {F App : Type 0} → (AppContext → App) → Progress F App
start enter = record {
  app = enter first_context;
  health = new_registry;
  initialized = [];
  degraded = [];
  retained = [];
}

-- BootstrapWith. `build_router` is Application.BuildRouter, which may change the state as an Init
-- may; `token_of` is the shutdown token of a state, which they reach through the context; a `none`
-- argument is nil.
module _ {F App Router : Type 0} (quote getenv : String → String)
    (default_loader : BootstrapConfig → Result (Loaded F)) (enter : AppContext → App)
    (token_of : App → Token) (build_router : App → AppConfig F → App × Result Router) where
  -- What follows the loop over the providers.
  unfoldable pub finish_bootstrap :
      BootstrapConfig → Loaded F → Progress F App → Result (BuiltApplication F App Router)
  finish_bootstrap bs loaded s =
      let (app, routed) = build_router s.app loaded.config in
      elim routed [
        | err e ↦ err (wrapped "build_router failed" e)
        | ok router ↦ ok (record {
          router = router;
          app_ctx = app;
          cfg = loaded.config;
          bootstrap = bs;
          applied_sources = loaded.applied_sources;
          initialized_integrations = s.initialized;
          degraded_integrations = s.degraded;
          shutdown_token = token_of app;
          health_registry = s.health;
          providers = s.retained;
          metrics_registry = none;
        })
      ]

  unfoldable pub bootstrap_with :
      Option BootstrapConfig
      → Option (BootstrapConfig → Result (Loaded F))
      → Option Features
      → List (Provider F App)
      → Result (BuiltApplication F App Router)
  unfolding finish_bootstrap
  bootstrap_with bs loader features providers =
      let bs' = or_else bs (default_bootstrap getenv) in
      let features' = or_else features Features.new in
      elim (or_else loader default_loader bs') [
        | err e ↦ err (wrapped "config load failed" e)
        | ok loaded ↦ elim (validate_feature_mapping quote loaded.config features') [
          | some e ↦ err e
          | none ↦
              init_providers quote loaded.config features' providers (start enter)
              >>= finish_bootstrap bs' loaded
        ]
      ]

  -- Bootstrap.
  unfoldable pub bootstrap : Option BootstrapConfig → Result (BuiltApplication F App Router)
  unfolding bootstrap_with
  bootstrap bs = bootstrap_with bs (some default_loader) (some Features.new) []
