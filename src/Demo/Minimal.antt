-- ===== src/Demo/Minimal.antt =====
-- examples/minimal/main.go. A router is the list of its GET routes; `url_param` is chi.URLParam and
-- `bytes_of` the conversion of a string to its bytes.
pub mod Start
use hwhkit_go.Core.Shutdown.{Token}
use hwhkit_go.Prelude.{ℕ, String, false, Option, none, some, List, [], ◌∷◌, string_eq, nat_eq}
use hwhkit_go.Prelude.Text.{Bytes, append}
use hwhkit_go.Http.{Handler, write}
use hwhkit_go.Config.AppConfig.{AppConfig}
use hwhkit_go.Core.CoreError.{Error, Result, ok}
use hwhkit_go.Observability.{Sdk}
use hwhkit_go.Production.Serve.{Wakeup}
use hwhkit_go.Facade.{run_and_serve, Loading}
use hwhkit_go.Core.AppContext.{AppContext}
use hwhkit_go.Core.Bootstrap.{BuiltApplication}
use hwhkit_go.Config.Bootstrap.{default_bootstrap}

abbrev pub Routes : Type 0 → Type 0
Routes C = List (String × Handler C)

-- What main passes to os.Exit, or 0 at its end.
unfoldable pub exit_code : Option Error → ℕ
exit_code none = 0
exit_code (some e) = 1

module _ {F App C : Type 0} (url_param : String → String → String) (bytes_of : String → Bytes) where
  -- BuildRouter.
  unfoldable pub build_router : App → AppConfig F → App × Result (Routes C)
  build_router app cfg = (
    app,
    ok (
        ("/", λ r. record { calls = write (bytes_of "ok") ∷ []; panicked = false })
        ∷ (
          "/echo/{name}",
          λ r. record {
            calls = write (bytes_of (append "hello, " (url_param r.path "name"))) ∷ [];
            panicked = false;
          },
        )
        ∷ []),
  )

module _ {F App C Exporter Resource Tracing : Type 0} (quote getenv to_lower : String → String)
    (url_param : String → String → String) (bytes_of : String → Bytes) (default_loader : Loading F)
    (enter : AppContext → App) (token_of : App → Token) (sdk : Sdk Exporter Resource Tracing)
    (init_metrics : ℕ) (mount : BuiltApplication F App (Routes C) → Routes C) where
  -- main, with what ends the wait of Serve; the result is the exit status.
  unfoldable pub main : Wakeup → ℕ
  unfolding exit_code
  main wakeup =
      exit_code
        (run_and_serve quote getenv to_lower default_loader enter token_of
          (build_router url_param bytes_of) sdk init_metrics mount wakeup
          (some (default_bootstrap getenv)) []).1
