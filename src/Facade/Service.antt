-- ===== src/Facade/Service.antt =====
-- A service from Run to its exit: RunAndServe together with the bootstrap and Serve.
use hwhkit_go.Core.Shutdown.{Token}
use hwhkit_go.Prelude.{
  ℕ, String, ◌≡◌, refl, sym, ap, ◌∙◌, Bool, true, false, ◌&&◌, Option, none, some, List, [], ◌∷◌,
  ◌++◌, nat_eq, string_eq, append-nil, Bool-cases, inl, inr,
}
use mathlib.Core.List.{reverse, reverse_aux}
use hwhkit_go.Core.CoreError.{Result, ok, err, Result-cases}
use hwhkit_go.Core.AppContext.{AppContext}
use hwhkit_go.Core.Bootstrap.{Provider, BuiltApplication, set_metrics_registry, set_router}
use hwhkit_go.Core.Bootstrap.Providers.{keys_of}
use hwhkit_go.Core.Bootstrap.Outcome.{bootstrap_with-WellBuilt}
use hwhkit_go.Config.AppConfig.{AppConfig, OtelConfig}
use hwhkit_go.Config.Bootstrap.{BootstrapConfig}
use hwhkit_go.Observability.{Sdk, init_logging, init_tracing}
use hwhkit_go.Production.Serve.{ServeResult, serve, signalled, drain_of}
use hwhkit_go.Production.Serve.Order.{stopped_keys, shut_down_all-keys}
use hwhkit_go.Facade.{
  Setting, Loading, Step, log_with, tracing_started, tracing_stopped, serves, defaults, apply_all,
  run, traced, run_and_serve,
}

module _ {F App Router Tracing : Type 0} where
  -- The keys of the integrations that the steps shut down, in order.
  abbrev pub released : List (Step F App Router Tracing) → List String
  released [] = []
  released (serves r ∷ ss) = stopped_keys r.events ++ released ss
  released (_ ∷ ss) = released ss

  -- Whether tracing is on after the steps, from whether it is before them.
  abbrev pub tracing_after : Bool → List (Step F App Router Tracing) → Bool
  tracing_after on [] = on
  tracing_after on (tracing_started t ∷ ss) = tracing_after true ss
  tracing_after on (tracing_stopped t ∷ ss) = tracing_after false ss
  tracing_after on (_ ∷ ss) = tracing_after on ss

  -- Whether tracing is on when Serve is called.
  abbrev pub tracing_serve : Bool → List (Step F App Router Tracing) → Bool
  tracing_serve on [] = false
  tracing_serve on (serves r ∷ ss) = on
  tracing_serve on (tracing_started t ∷ ss) = tracing_serve true ss
  tracing_serve on (tracing_stopped t ∷ ss) = tracing_serve false ss
  tracing_serve on (_ ∷ ss) = tracing_serve on ss

keys_of-reverse_aux :
    {F App : Type 0} (ps done : List (Provider F App))
    → keys_of (reverse_aux ps done) ≡ reverse_aux (keys_of ps) (keys_of done)
keys_of-reverse_aux [] done = refl
keys_of-reverse_aux (p ∷ ps) done = keys_of-reverse_aux ps (p ∷ done)

abbrev pub starts :
    {Exporter Resource Tracing : Type 0} → Sdk Exporter Resource Tracing → OtelConfig → Bool
starts sdk otel = otel.enabled && elim (init_tracing sdk otel) [ err e ↦ false | ok tp ↦ true ]

module _ {F App Router Exporter Resource Tracing : Type 0} (quote getenv to_lower : String → String)
    (default_loader : Loading F) (enter : AppContext → App) (token_of : App → Token)
    (build_router : App → AppConfig F → App × Result Router) (sdk : Sdk Exporter Resource Tracing)
    (init_metrics : ℕ) (mount : BuiltApplication F App Router → Router) where
  released-serve :
      (built : BuiltApplication F App Router)
      → stopped_keys (serve init_metrics mount built signalled).events
        ≡ keys_of (reverse built.providers)
  unfolding serve set_router set_metrics_registry
  released-serve built =
      shut_down_all-keys (drain_of built.cfg.server) (reverse built.providers) built.app_ctx

  abbrev traced_steps : OtelConfig → ServeResult F App Router → List (Step F App Router Tracing)
  traced_steps =
      traced quote getenv to_lower default_loader enter token_of build_router sdk init_metrics mount
        signalled

  traced_lem :
      (otel : OtelConfig) (result : ServeResult F App Router)
      → (released (traced_steps otel result) ≡ stopped_keys result.events)
        × (tracing_serve false (traced_steps otel result) ≡ starts sdk otel)
        × (tracing_after false (traced_steps otel result) ≡ false)
  unfolding traced
  traced_lem otel result = elim (Bool-cases otel.enabled) [
    | inr off ↦ (rw (off) (append-nil (stopped_keys result.events)), rw (off) refl, rw (off) refl)
    | inl on ↦ elim (Result-cases (init_tracing sdk otel)) [
      | inl (e, failed) ↦ (
        rw (failed, on) (append-nil (stopped_keys result.events)),
        rw (failed, on) refl,
        rw (failed, on) refl,
      )
      | inr (tp, good) ↦ (
        rw (good, on) (append-nil (stopped_keys result.events)),
        rw (good, on) refl,
        rw (good, on) refl,
      )
    ]
  ]

  run_and_serve-ok :
      (bs : Option BootstrapConfig) (settings : List (Setting F App))
      (built : BuiltApplication F App Router)
      → run quote getenv default_loader enter token_of build_router bs settings ≡ ok built
      → run_and_serve quote getenv to_lower default_loader enter token_of build_router sdk
          init_metrics mount signalled bs settings
        ≡ (
          log_with (init_logging to_lower built.cfg.observability.log)
              ∷ traced_steps built.cfg.observability.otel
                  (serve init_metrics mount built signalled),
          none,
        )
  unfolding run_and_serve serve
  run_and_serve-ok bs settings built h = rw (h, run_and_serve) refl

  run-initialized :
      (bs : Option BootstrapConfig) (settings : List (Setting F App))
      (built : BuiltApplication F App Router)
      → run quote getenv default_loader enter token_of build_router bs settings ≡ ok built
      → built.initialized_integrations ≡ keys_of built.providers
  unfolding run
  run-initialized bs settings built h =
      let o = apply_all settings (defaults default_loader) in
      let good =
        bootstrap_with-WellBuilt quote getenv default_loader enter token_of build_router bs
          (o.loader) (some (o.features)) (o.providers) built h in
      good.initialized

  -- Whatever the settings are, if Run builds an application, RunAndServe that ends by a signal
  -- returns no error, whatever the shutdowns return, and shuts down exactly the integrations that
  -- were initialised, the last one first; tracing is on during Serve exactly if it is enabled and can be started, and is off in
  -- the end.
  pub service_ends :
      (bs : Option BootstrapConfig) (settings : List (Setting F App))
      (built : BuiltApplication F App Router)
      → run quote getenv default_loader enter token_of build_router bs settings ≡ ok built
      → let (steps, failure) =
          run_and_serve quote getenv to_lower default_loader enter token_of build_router sdk
            init_metrics mount signalled bs settings in
        (released steps ≡ reverse built.initialized_integrations)
        × (failure ≡ none)
        × (tracing_serve false steps ≡ starts sdk built.cfg.observability.otel)
        × (tracing_after false steps ≡ false)
  service_ends bs settings built h =
      let result = serve init_metrics mount built signalled in
      let (stops, during, after) = traced_lem built.cfg.observability.otel result in
      rw (run_and_serve-ok bs settings built h) (
        stops
            ∙ released-serve built
            ∙ keys_of-reverse_aux built.providers []
            ∙ ap reverse (sym (run-initialized bs settings built h)),
        refl,
        during,
        after,
      )
