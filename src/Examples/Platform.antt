-- ===== src/Examples/Platform.antt =====
-- Bootstrap, configuration and health at concrete inputs.
use hwhkit_go.Prelude.{
  ℕ, ◌+◌, ◌*◌, ◌<◌, String, ◌≡◌, refl, true, false, none, some, List, [], ◌∷◌, ◌++◌, arith, nat_eq,
  string_eq,
}
use hwhkit_go.Prelude.Int.{pos, Duration, is_positive}
use hwhkit_go.Core.CoreError
use hwhkit_go.Core.CoreError.{Error, feature_mismatch_error}
use hwhkit_go.Core.Features
use hwhkit_go.Core.Features.{Features}
use hwhkit_go.Core.Health.{
  new_registry, register, Registry, Check, healthy, unhealthy, Status, probe,
}
use hwhkit_go.Core.Health.Verdict.{verdict}
use hwhkit_go.Core.Health.Probes.{probe_any_order, sequential, ends}
use hwhkit_go.Core.AppContext.{AppContext}
use hwhkit_go.Core.Bootstrap.{
  init_providers, init_provider, base_health_check, start, first_context, validate_feature_mapping,
  BuiltApplication, bootstrap_with, Progress,
}
use hwhkit_go.Core.Shutdown.{new_token, is_cancelled}
use hwhkit_go.Prelude.Text.{append}
use hwhkit_go.Prelude.Dict
use hwhkit_go.Core.Bootstrap.Providers.{
  init_providers-eq-outcomes, result_of, first_error, outcomes, extended, keys_of,
}
use hwhkit_go.Core.Bootstrap.Degraded.{degraded-Traceless}
use hwhkit_go.Core.Bootstrap.Outcome.{bootstrap_with-WellBuilt, WellBuilt}
use mathlib.Core.List.{reverse}
use hwhkit_go.Production.Serve.{
  serve, signalled, opening, cancel_token, shut_down_server, drain_of, Event,
}
use hwhkit_go.Production.Serve.Order.{serve_signalled, ready_of, stopped_keys}
use hwhkit_go.Examples.Setup.{
  sample_config, sample_features, sample_settings, sample_loader, sample_build, redis_provider,
  mail_provider,
}

abbrev pub built_sample : BuiltApplication ℕ AppContext String
built_sample = record {
  router = "routes";
  app_ctx = first_context;
  cfg = sample_config;
  bootstrap = sample_settings;
  applied_sources = "base" ∷ [];
  initialized_integrations = "redis" ∷ [];
  degraded_integrations = "mail" ∷ [];
  shutdown_token = new_token;
  health_registry = new_registry;
  providers = redis_provider ∷ [];
  metrics_registry = none;
}

pub builds : sample_build ≡ CoreError.ok built_sample
unfolding bootstrap_with validate_feature_mapping Features.contains Features.enable Features.new
    Dict.get Dict.put init_providers init_provider new_registry register base_health_check
builds = refl

bootstrap_with-WellBuilt_example :
    WellBuilt
      (λ s. s)
      (λ s. "")
      sample_loader
      (λ app. app)
      (λ app. new_token)
      (λ app c. (app, CoreError.ok "routes"))
      (some sample_settings)
      none
      (some sample_features)
      (redis_provider ∷ mail_provider ∷ [])
      built_sample
bootstrap_with-WellBuilt_example =
    bootstrap_with-WellBuilt (λ s. s) (λ s. "") sample_loader (λ app. app) (λ app. new_token)
      (λ app c. (app, CoreError.ok "routes")) (some sample_settings) none (some sample_features)
      (redis_provider ∷ mail_provider ∷ []) built_sample builds

init_providers-eq-outcomes_example :
    init_providers
      (λ s. s)
      sample_config
      sample_features
      (redis_provider ∷ mail_provider ∷ [])
      (start (λ app. app))
    ≡ result_of
        (first_error sample_config
          (λ s. s)
          sample_features
          (outcomes sample_config (redis_provider ∷ mail_provider ∷ []) first_context))
        (extended sample_config (redis_provider ∷ mail_provider ∷ []) (start (λ app. app)))
init_providers-eq-outcomes_example =
    init_providers-eq-outcomes (λ s. s) sample_config sample_features
      (redis_provider ∷ mail_provider ∷ []) (start (λ app. app))

redis_missing :
    validate_feature_mapping (λ s. s) sample_config Features.new
    ≡ some (feature_mismatch_error (λ s. s) "redis")
unfolding validate_feature_mapping Features.contains Features.new Dict.get
redis_missing = refl

abbrev check_with : String → Status → Check
check_with name status = record {
  name = name;
  probe = record { name = name; status = status; detail = ""; latency = pos 0 };
}

abbrev two_checks : Registry
two_checks = record { checks = check_with "redis" healthy ∷ check_with "search" unhealthy ∷ [] }

abbrev since : ℕ → Duration
since i = pos (1_000_000 * (i + 1))

both_end : (i : ℕ) → i < 2 → ends (1 ∷ 0 ∷ []) i ≡ true
both_end i h = ground arith

probe_any_order_example :
    probe two_checks since (1 ∷ 0 ∷ [])
    ≡ (verdict (sequential two_checks.checks since 0), sequential two_checks.checks since 0)
probe_any_order_example = probe_any_order two_checks since (1 ∷ 0 ∷ []) both_end

abbrev mounted : BuiltApplication ℕ AppContext String → String
mounted b = append "root/" b.router

fresh_token : built_sample.shutdown_token.once_done ≡ false
unfolding new_token
fresh_token = refl

serve_signalled_example :
    (stops : List Event) × ((serve 9 mounted built_sample signalled).events
      ≡ opening 9 mounted (ready_of 9 mounted built_sample)
        ++ (cancel_token ∷ shut_down_server (drain_of sample_config.server) ∷ stops))
    × (stopped_keys stops ≡ keys_of (reverse built_sample.providers))
    × (is_positive (drain_of sample_config.server) ≡ true)
    × ((serve 9 mounted built_sample signalled).error ≡ none)
    × (is_cancelled (serve 9 mounted built_sample signalled).built.shutdown_token ≡ true)
serve_signalled_example = serve_signalled 9 mounted built_sample fresh_token

abbrev progress_sample : Progress ℕ AppContext
progress_sample = record {
  app = first_context;
  health = new_registry;
  initialized = "redis" ∷ [];
  degraded = "mail" ∷ [];
  retained = redis_provider ∷ [];
}

degraded-Traceless_example :
    init_providers (λ s. s) sample_config sample_features (redis_provider ∷ []) (start (λ app. app))
    ≡ CoreError.ok (record progress_sample { degraded = [] })
unfolding init_providers init_provider Features.contains Features.enable Features.new Dict.get
    Dict.put register base_health_check new_registry
degraded-Traceless_example =
    degraded-Traceless sample_config (λ s. s) (λ app. app) sample_features
      (redis_provider ∷ mail_provider ∷ []) progress_sample (λ app e h. refl, (λ app e h. refl, tt))
      refl
