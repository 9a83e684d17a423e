-- ===== src/Facade/Release.antt =====
-- A service from Run to its exit by a signal, and the clients of an integration that it runs.
use hwhkit_go.Core.Shutdown.{Token}
use hwhkit_go.Prelude.{ℕ, String, ◌≡◌, ap, ◌∙◌, Option, some, List, ◌∷◌, ◌++◌, All}
use mathlib.Core.List.{reverse}
use hwhkit_go.Core.CoreError.{Result, ok}
use hwhkit_go.Core.AppContext.{AppContext}
use hwhkit_go.Core.Bootstrap.{
  Provider, BuiltApplication, first_context, set_metrics_registry, set_router,
}
use hwhkit_go.Core.Bootstrap.Providers.{final_app}
use hwhkit_go.Core.Bootstrap.Outcome.{bootstrap_with-WellBuilt}
use hwhkit_go.Config.AppConfig.{AppConfig}
use hwhkit_go.Config.Bootstrap.{BootstrapConfig}
use hwhkit_go.Integration.World.{World}
use hwhkit_go.Integration.Lifecycle.{Lifecycle, Balanced}
use hwhkit_go.Integration.Hosted.{Keeps, Apart, Runs, Balanced-winners}
use hwhkit_go.Core.Bootstrap.Winners.{winners}
use hwhkit_go.Production.Serve.Stopping.{stopped}
use hwhkit_go.Production.Serve.{serve, signalled, drain_of}
use hwhkit_go.Facade.{Setting, Loading, defaults, apply_all, run}

module _ {F App Router : Type 0} (quote getenv : String → String) (default_loader : Loading F)
    (enter : AppContext → App) (token_of : App → Token)
    (build_router : App → AppConfig F → App × Result Router) (init_metrics : ℕ)
    (mount : BuiltApplication F App Router → Router) where
  -- The state that Serve leaves.
  abbrev pub left_by : BuiltApplication F App Router → App
  left_by built = (serve init_metrics mount built signalled).built.app_ctx

  -- The state that BuildRouter leaves.
  abbrev routed : BuiltApplication F App Router → App → App
  routed built a = (build_router a built.cfg).0

  left_by-winners :
      (bs : Option BootstrapConfig) (settings : List (Setting F App))
      (built : BuiltApplication F App Router) (providers : List (Provider F App))
      → run quote getenv default_loader enter token_of build_router bs settings ≡ ok built
      → (apply_all settings (defaults default_loader)).providers ≡ providers
      → left_by built
        ≡ stopped
            (drain_of built.cfg.server)
            (reverse (winners built.cfg providers (enter first_context)))
            (routed built (final_app built.cfg providers (enter first_context)))
  unfolding run serve set_router set_metrics_registry
  left_by-winners bs settings built providers h all_of_them =
      let o = apply_all settings (defaults default_loader) in
      let good =
        bootstrap_with-WellBuilt quote getenv default_loader enter token_of build_router bs
          (o.loader) (some (o.features)) (o.providers) built h in
      let drain = drain_of built.cfg.server in
      ap (λ ps. stopped drain (reverse ps) built.app_ctx) good.retained
      ∙ ap (λ a. stopped drain (reverse (winners built.cfg o.providers (enter first_context))) a)
          good.state
      ∙ ap
          (λ ps.
            stopped drain (reverse (winners built.cfg ps (enter first_context)))
              (routed built (final_app built.cfg ps (enter first_context))))
          all_of_them

  -- An integration among other providers, wherever it stands in the list, that leave its Handle and
  -- its clients alone, as BuildRouter does: if Run builds an application, then after a signal, when Serve returns, every
  -- client that the integration has opened has been released (its Close, Disconnect or Drain was called
  -- or started, though it may not have come to its end), whether its Init succeeded, failed
  -- without being required, or was never called.
  pub service_releases :
      {H C : Type 0} (l : Lifecycle H C (AppConfig F)) (view : App → World H C)
      (bs : Option BootstrapConfig) (settings : List (Setting F App))
      (built : BuiltApplication F App Router) (before : List (Provider F App)) (p : Provider F App)
      (after : List (Provider F App))
      → run quote getenv default_loader enter token_of build_router bs settings ≡ ok built
      → (apply_all settings (defaults default_loader)).providers ≡ before ++ p ∷ after
      → ((a : App) → Keeps l view a (build_router a built.cfg).0)
      → All (Apart l view built.cfg) before
      → Runs l view built.cfg p
      → All (Apart l view built.cfg) after
      → Balanced (view (enter first_context))
      → Balanced (view (left_by built))
  service_releases l view bs settings built before p after h all_of_them keeps hb runs ha balanced =
      rw (left_by-winners bs settings built (before ++ p ∷ after) h all_of_them) (
        Balanced-winners l view built.cfg (drain_of built.cfg.server) (routed built) before p after
          (enter first_context) keeps hb runs ha balanced)
