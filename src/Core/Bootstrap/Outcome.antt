-- ===== src/Core/Bootstrap/Outcome.antt =====
-- What holds of an application that BootstrapWith returns.
use hwhkit_go.Prelude.{
  String, ◌≡◌, refl, subst, true, false, Option, none, some, List, [], ◌∷◌, arith, nat_eq,
  string_eq, or_else, All,
}
use hwhkit_go.Core.CoreError.{Error, Result, ok, err, ◌>>=◌}
use hwhkit_go.Core.Features
use hwhkit_go.Core.Features.{Features}
use hwhkit_go.Core.AppContext.{AppContext}
use hwhkit_go.Core.Shutdown.{Token}
use hwhkit_go.Core.Bootstrap.{
  Provider, Loaded, BuiltApplication, start, first_context, mapping, validate_feature_mapping,
  finish_bootstrap, bootstrap_with,
}
use hwhkit_go.Core.Bootstrap.Mapping.{Covered, validate_feature_mapping_accepts}
use hwhkit_go.Core.Bootstrap.Providers.{
  outcomes, first_error, succeeded, failed, keys_of, extended, final_app, result_of,
  init_providers-eq-outcomes,
}
use hwhkit_go.Config.AppConfig.{AppConfig}
use hwhkit_go.Config.Bootstrap.{BootstrapConfig, default_bootstrap}

abbrev pub HasFeature : {F App : Type 0} → Features → Provider F App → Type 0
HasFeature features p = Features.contains (some features) p.key ≡ true

abbrev pub IsOptional : {F App : Type 0} → AppConfig F → Provider F App → Type 0
IsOptional cfg p = p.required cfg ≡ false

no_error_means :
    {F App : Type 0} (cfg : AppConfig F) (quote : String → String) (features : Features)
    (os : List (Provider F App × Option Error))
    → first_error cfg quote features os ≡ none
    → All (HasFeature features) (succeeded os) × All (IsOptional cfg) (failed os)
no_error_means cfg quote features [] h = (tt, tt)
no_error_means cfg quote features ((p, none) ∷ os) h =
    ground (arith, no_error_means cfg quote features os)
no_error_means cfg quote features ((p, some e) ∷ os) h =
    ground (arith, no_error_means cfg quote features os)

module _ {F App Router : Type 0} (quote getenv : String → String)
    (default_loader : BootstrapConfig → Result (Loaded F)) (enter : AppContext → App)
    (token_of : App → Token) (build_router : App → AppConfig F → App × Result Router)
    (bs : Option BootstrapConfig) (loader : Option (BootstrapConfig → Result (Loaded F)))
    (features : Option Features) (providers : List (Provider F App)) where
  abbrev pub used_features : Features
  used_features = or_else features Features.new

  -- The application has the configuration that the loader returned, each integration that this
  -- enables has its feature, the initialised keys are those of the retained providers, in order,
  -- each retained provider has its feature, the state is the one that the enabled Init calls
  -- leave one after the other and BuildRouter after them, which made the router, the degraded keys are those of enabled providers that
  -- failed and are not required, and the shutdown token is the one of that state.
  pub record WellBuilt (b : BuiltApplication F App Router) : Type 0 where
    pub loaded :
        or_else loader default_loader (or_else bs (default_bootstrap getenv))
        ≡ ok (record { config = b.cfg; applied_sources = b.applied_sources })
    pub covered : All (Covered used_features) (mapping b.cfg)
    pub initialized : b.initialized_integrations ≡ keys_of b.providers
    pub state : b.app_ctx ≡ (build_router (final_app b.cfg providers (enter first_context)) b.cfg).0
    pub retained : b.providers ≡ succeeded (outcomes b.cfg providers (enter first_context))
    pub featured : All (HasFeature used_features) b.providers
    pub degraded :
        b.degraded_integrations ≡ keys_of (failed (outcomes b.cfg providers (enter first_context)))
    pub optional : All (IsOptional b.cfg) (failed (outcomes b.cfg providers (enter first_context)))
    pub routed :
        (build_router (final_app b.cfg providers (enter first_context)) b.cfg).1 ≡ ok b.router
    pub token : b.shutdown_token ≡ token_of b.app_ctx

  -- The application that is returned for a loaded configuration and a router.
  abbrev pub built_from : Loaded F → Router → BuiltApplication F App Router
  built_from loaded router = record {
    router = router;
    app_ctx = (build_router (extended loaded.config providers (start enter)).app loaded.config).0;
    cfg = loaded.config;
    bootstrap = or_else bs (default_bootstrap getenv);
    applied_sources = loaded.applied_sources;
    initialized_integrations = (extended loaded.config providers (start enter)).initialized;
    degraded_integrations = (extended loaded.config providers (start enter)).degraded;
    shutdown_token =
        token_of
          (build_router (extended loaded.config providers (start enter)).app loaded.config).0;
    health_registry = (extended loaded.config providers (start enter)).health;
    providers = (extended loaded.config providers (start enter)).retained;
    metrics_registry = none;
  }

  built_from-WellBuilt :
      (loaded : Loaded F) (router : Router)
      → or_else loader default_loader (or_else bs (default_bootstrap getenv)) ≡ ok loaded
      → validate_feature_mapping quote loaded.config used_features ≡ none
      → first_error loaded.config quote used_features
          (outcomes loaded.config providers (enter first_context))
        ≡ none
      → (build_router (extended loaded.config providers (start enter)).app loaded.config).1
        ≡ ok router
      → WellBuilt (built_from loaded router)
  built_from-WellBuilt loaded router l v f rr =
      let (featured, optional) =
        no_error_means loaded.config quote used_features
          (outcomes loaded.config providers (enter first_context)) f in
      record {
        loaded = l;
        covered = (validate_feature_mapping_accepts quote loaded.config used_features).0 v;
        initialized = refl;
        state = refl;
        retained = refl;
        featured = featured;
        degraded = refl;
        optional = optional;
        routed = rr;
        token = refl;
      }

  WellBuilt-of :
      (loaded : Loaded F) (b : BuiltApplication F App Router)
      → or_else loader default_loader (or_else bs (default_bootstrap getenv)) ≡ ok loaded
      → validate_feature_mapping quote loaded.config used_features ≡ none
      → (fe : Option Error)
      → first_error loaded.config quote used_features
          (outcomes loaded.config providers (enter first_context))
        ≡ fe
      → (routed : Result Router)
      → (build_router (extended loaded.config providers (start enter)).app loaded.config).1 ≡ routed
      → (result_of fe (extended loaded.config providers (start enter))
          >>= finish_bootstrap quote getenv default_loader enter token_of build_router
              (or_else bs (default_bootstrap getenv))
              loaded)
        ≡ ok b
      → WellBuilt b
  unfolding finish_bootstrap
  WellBuilt-of loaded b l v (some e) f r rr h = cc
  WellBuilt-of loaded b l v none f (err e) rr h = absurd (ground arith)
  WellBuilt-of loaded b l v none f (ok router) rr h =
      let same : built_from loaded router ≡ b = ground arith in
      subst WellBuilt same (built_from-WellBuilt loaded router l v f rr)

  -- An application that BootstrapWith returns, whatever the arguments, nil ones included, has the
  -- configuration that the loader returned, each of the eight integrations of the mapping check
  -- that this enables has its feature, the initialised keys are those of the retained providers,
  -- which are the enabled ones whose Init succeeds and each have their feature, the degraded keys
  -- are those of the enabled ones whose Init fails, none of them required, the router is what
  -- BuildRouter makes of the state that the Init calls leave one after the other, the state is the
  -- one that BuildRouter leaves, and the shutdown token is as that state has it.
  pub bootstrap_with-WellBuilt :
      (b : BuiltApplication F App Router)
      → bootstrap_with quote getenv default_loader enter token_of build_router bs loader features
          providers
        ≡ ok b
      → WellBuilt b
  unfolding bootstrap_with
  bootstrap_with-WellBuilt b h =
      on_load (or_else loader default_loader (or_else bs (default_bootstrap getenv))) refl
    where
      on_valid :
          (loaded : Loaded F)
          → or_else loader default_loader (or_else bs (default_bootstrap getenv)) ≡ ok loaded
          → (v : Option Error) → validate_feature_mapping quote loaded.config used_features ≡ v
          → WellBuilt b
      on_valid loaded l (some e) v = absurd (ground arith)
      on_valid loaded l none v =
          WellBuilt-of loaded b l v
            (first_error loaded.config quote used_features
              (outcomes loaded.config providers (enter first_context)))
            refl (build_router (extended loaded.config providers (start enter)).app loaded.config).1
            refl
            (ground (
              arith,
              init_providers-eq-outcomes quote loaded.config used_features providers (start enter),
            ))

      on_load :
          (r : Result (Loaded F))
          → or_else loader default_loader (or_else bs (default_bootstrap getenv)) ≡ r
          → WellBuilt b
      on_load (err e) l = absurd (ground arith)
      on_load (ok loaded) l =
          on_valid loaded l (validate_feature_mapping quote loaded.config used_features) refl
