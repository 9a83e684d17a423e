-- ===== src/Facade.antt =====
-- hwhkit/bootstrap.go: the options of Run, and what RunAndServe does around Serve.
pub mod Registration
pub mod Service
pub mod Release
use hwhkit_go.Core.Shutdown.{Token}
use hwhkit_go.Prelude.{
  ℕ, zero, suc, ◌+◌, ◌-◌, ◌*◌, ◌/◌, ◌%◌, ◌^◌, ◌≤◌, ◌<◌, String, ◌≡◌, refl, sym, ap, ◌∙◌, subst, ◌≢◌,
  ◌↔◌, ◌⊎◌, inl, inr, Bool, true, false, not, ◌&&◌, ◌||◌, Option, none, some, List, [], ◌∷◌, ◌++◌,
  map, append-nil, append_assoc, arith, eq_iff, ltb, leb, Eq, ◌==◌, nat_eq, string_eq,
  if◌then◌else◌, ltb→lt, lt→ltb, leb→le, tests, Bool-cases, Option-cases, is_some, or_else, length,
  get_elem?, set, any, all, length-append, length-map, All, All-append,
}
use hwhkit_go.Core.CoreError.{Error, Result, ok, err}
use hwhkit_go.Core.Features
use hwhkit_go.Core.Features.{Features}
use hwhkit_go.Core.Bootstrap.{Provider, Loaded, BuiltApplication, bootstrap_with}
use hwhkit_go.Core.AppContext.{AppContext}
use hwhkit_go.Config.AppConfig.{AppConfig, LogConfig, OtelConfig}
use hwhkit_go.Config.Bootstrap.{BootstrapConfig}
use hwhkit_go.Observability.{Logger, Sdk, init_logging, init_tracing}
use hwhkit_go.Production.Serve.{Wakeup, ServeResult, serve}

abbrev pub Loading : Type 0 → Type 0
Loading F = BootstrapConfig → Result (Loaded F)

-- The struct `options`; `none` is a nil loader.
pub record Options (F App : Type 0) : Type 0 where
  pub loader : Option (Loading F)
  pub features : Features
  pub providers : List (Provider F App)

-- The values that WithProvider, WithLoader and WithFeature return.
pub data Setting (F App : Type 0) : Type 0 where
  with_provider : Provider F App → Setting F App
  with_loader : Option (Loading F) → Setting F App
  with_feature : String → Setting F App

module _ {F App : Type 0} where
  unfoldable pub defaults : Loading F → Options F App
  defaults default_loader = record {
    loader = some default_loader;
    features = Features.new;
    providers = [];
  }

  unfoldable pub apply : Setting F App → Options F App → Options F App
  apply (with_provider p) o = record o {
    providers = o.providers ++ p ∷ [];
    features = Features.enable o.features p.key;
  }
  apply (with_loader l) o = record o { loader = l }
  apply (with_feature key) o = record o { features = Features.enable o.features key }

  unfoldable pub apply_all : List (Setting F App) → Options F App → Options F App
  apply_all [] o = o
  apply_all (s ∷ ss) o = apply_all ss (apply s o)

module _ {F App Router : Type 0} (quote getenv : String → String) (default_loader : Loading F)
    (enter : AppContext → App) (token_of : App → Token)
    (build_router : App → AppConfig F → App × Result Router) where
  unfoldable pub run :
      Option BootstrapConfig → List (Setting F App) → Result (BuiltApplication F App Router)
  unfolding apply_all defaults
  run bs settings =
      let o = apply_all settings (defaults default_loader) in
      bootstrap_with quote getenv default_loader enter token_of build_router bs o.loader
        (some o.features) o.providers

-- What RunAndServe does, in order.
pub data Step (F App Router Tracing : Type 0) : Type 0 where
  log_with : Logger → Step F App Router Tracing
  tracing_failed : Error → Step F App Router Tracing
  tracing_started tracing_stopped : Option Tracing → Step F App Router Tracing
  serves : ServeResult F App Router → Step F App Router Tracing

module _ {F App Router Exporter Resource Tracing : Type 0} (quote getenv to_lower : String → String)
    (default_loader : Loading F) (enter : AppContext → App) (token_of : App → Token)
    (build_router : App → AppConfig F → App × Result Router) (sdk : Sdk Exporter Resource Tracing)
    (init_metrics : ℕ) (mount : BuiltApplication F App Router → Router) (wakeup : Wakeup) where
  -- The span of Serve with tracing around it, if it is enabled and starts.
  unfoldable pub traced : OtelConfig → ServeResult F App Router → List (Step F App Router Tracing)
  traced otel result =
      if otel.enabled
      then elim (init_tracing sdk otel) [
        | err e ↦ tracing_failed e ∷ serves result ∷ []
        | ok tp ↦ tracing_started tp ∷ serves result ∷ tracing_stopped tp ∷ []
      ]
      else serves result ∷ []

  unfoldable pub run_and_serve :
      Option BootstrapConfig
      → List (Setting F App)
      → List (Step F App Router Tracing) × Option Error
  unfolding traced
  run_and_serve bs settings =
      elim (run quote getenv default_loader enter token_of build_router bs settings) [
        | err e ↦ ([], some e)
        | ok built ↦
            let observability = built.cfg.observability in
            let result = serve init_metrics mount built wakeup in
            (
              log_with (init_logging to_lower observability.log) ∷ traced observability.otel result,
              result.error,
            )
      ]
