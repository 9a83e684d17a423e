-- ===== src/Examples/Running.antt =====
-- A service from Run to its exit, at a concrete input.
use hwhkit_go.Core.Shutdown.{new_token}
use hwhkit_go.Prelude.{ℕ, String, ◌≡◌, refl, ◌∙◌, false, none, some, List, [], ◌∷◌}
use hwhkit_go.Prelude.Text.{append}
use mathlib.Core.List.{reverse}
use hwhkit_go.Core.AppContext.{AppContext}
use hwhkit_go.Core.CoreError
use hwhkit_go.Core.Bootstrap.{BuiltApplication}
use hwhkit_go.Observability.{Sdk}
use hwhkit_go.Production.Serve.{signalled}
use hwhkit_go.Facade.{
  Setting, with_provider, with_loader, defaults, apply, apply_all, run, run_and_serve,
}
use hwhkit_go.Facade.Service.{service_ends, released, tracing_serve, tracing_after, starts}
use hwhkit_go.Examples.Setup.{
  sample_settings, sample_loader, redis_provider, mail_provider, sample_build,
}
use hwhkit_go.Examples.Platform.{built_sample, builds}

abbrev choices : List (Setting ℕ AppContext)
choices = with_provider redis_provider ∷ with_loader none ∷ with_provider mail_provider ∷ []

abbrev sdk_sample : Sdk String String String
sdk_sample = record {
  new_exporter = λ options. CoreError.ok "exporter";
  new_resource = λ name version. CoreError.ok name;
  new_tracer_provider = λ exp res. append exp res;
}

abbrev root_of : BuiltApplication ℕ AppContext String → String
root_of b = append "root/" b.router

runs_as_built :
    run
      (λ s. s)
      (λ s. "")
      sample_loader
      (λ app. app)
      (λ app. new_token)
      (λ app c. (app, CoreError.ok "routes"))
      (some sample_settings)
      choices
    ≡ sample_build
unfolding run apply_all apply defaults
runs_as_built = refl

service_ends_example :
    let (steps, failure) =
      run_and_serve
        (λ s. s)
        (λ s. "")
        (λ s. s)
        sample_loader
        (λ app. app)
        (λ app. new_token)
        (λ app c. (app, CoreError.ok "routes"))
        sdk_sample
        9
        root_of
        signalled
        (some sample_settings)
        choices in
    (released steps ≡ reverse built_sample.initialized_integrations)
    × (failure ≡ none)
    × (tracing_serve false steps ≡ starts sdk_sample built_sample.cfg.observability.otel)
    × (tracing_after false steps ≡ false)
service_ends_example =
    service_ends (λ s. s) (λ s. "") (λ s. s) sample_loader (λ app. app) (λ app. new_token)
      (λ app c. (app, CoreError.ok "routes")) sdk_sample 9 root_of (some sample_settings) choices
      built_sample (runs_as_built ∙ builds)
