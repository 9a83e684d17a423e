-- ===== src/Demo/Minimal/Start.antt =====
-- When the minimal service runs to its end.
use hwhkit_go.Core.Shutdown.{Token}
use hwhkit_go.Prelude.{ℕ, String, ◌≡◌, false, some, [], All}
use hwhkit_go.Prelude.Text.{Bytes}
use hwhkit_go.Prelude.Dict
use hwhkit_go.Config.AppConfig.{AppConfig}
use hwhkit_go.Config.Bootstrap.{default_bootstrap}
use hwhkit_go.Core.AppContext.{AppContext}
use hwhkit_go.Core.CoreError.{Result}
use hwhkit_go.Core.Features
use hwhkit_go.Core.Bootstrap.{BuiltApplication, mapping}
use hwhkit_go.Observability.{Sdk}
use hwhkit_go.Production.Serve.{Wakeup}
use hwhkit_go.Facade.{Loading, run}
use hwhkit_go.Demo.Minimal.{Routes, build_router, main}

-- The configuration enables none of the eight integrations.
abbrev pub EnablesNone : {F : Type 0} → AppConfig F → Type 0
EnablesNone cfg = All (λ row. row.0 ≡ false) (mapping cfg)

module _ {F App C Exporter Resource Tracing : Type 0} (quote getenv to_lower : String → String)
    (url_param : String → String → String) (bytes_of : String → Bytes) (default_loader : Loading F)
    (enter : AppContext → App) (token_of : App → Token) (sdk : Sdk Exporter Resource Tracing)
    (init_metrics : ℕ) (mount : BuiltApplication F App (Routes C) → Routes C)
    (wakeup : Wakeup) where
  abbrev started : Result (BuiltApplication F App (Routes C))
  started =
      run quote getenv default_loader enter token_of (build_router url_param bytes_of)
        (some (default_bootstrap getenv)) []

  abbrev status : ℕ
  status =
      main quote getenv to_lower url_param bytes_of default_loader enter token_of sdk init_metrics
        mount wakeup
