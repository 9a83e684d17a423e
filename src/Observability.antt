-- ===== src/Observability.antt =====
-- observability/logging.go, observability/otel.go and observability/instrument/http.go. slog is described by the handler that is
-- asked for, and the OpenTelemetry SDK is a record of functions.
pub mod Metrics
use hwhkit_go.Prelude.{
  or_else, String, not, ◌||◌, Option, none, some, List, [], ◌∷◌, ◌++◌, ltb, ◌==◌, nat_eq, string_eq,
  if◌then◌else◌, length,
}
use hwhkit_go.Prelude.Dict.{Dict}
use hwhkit_go.Config.AppConfig.{LogConfig, OtelConfig}
use hwhkit_go.Core.CoreError.{wrapped, Result, ok, err}

pub data Level : Type 0 where
  debug info warn error : Level

pub data Format : Type 0 where
  text json : Format

-- The logger: its handler's format and least level. It is also made the default one.
pub record Logger : Type 0 where
  pub format : Format
  pub level : Level

-- `to_lower` is strings.ToLower.
module _ (to_lower : String → String) where
  unfoldable pub parse_level : String → Level
  parse_level s =
      let l = to_lower s in
      if l == "debug"
      then debug
      else if l == "warn" || l == "warning"
      then warn
      else if l == "error"
      then error
      else info

  unfoldable pub init_logging : LogConfig → Logger
  unfolding parse_level
  init_logging cfg = record {
    format = if to_lower cfg.format == "text" then text else json;
    level = parse_level cfg.level;
  }

-- The options of the exporter's client, in order.
pub data ClientOption : Type 0 where
  with_endpoint : String → ClientOption
  with_insecure : ClientOption
  with_headers : Dict String → ClientOption

pub record Sdk (Exporter Resource Tracing : Type 0) : Type 0 where
  pub new_exporter : List ClientOption → Result Exporter
  pub new_resource : String → String → Result Resource
  pub new_tracer_provider : Exporter → Resource → Tracing

unfoldable pub client_options : OtelConfig → List ClientOption
client_options cfg =
    with_endpoint cfg.endpoint ∷ (if cfg.insecure then with_insecure ∷ [] else [])
    ++ (if ltb 0 (length cfg.headers) then with_headers cfg.headers ∷ [] else [])

-- InitTracing: the tracer provider, which is also made the global one, or nil.
unfoldable pub init_tracing :
    {Exporter Resource Tracing : Type 0}
    → Sdk Exporter Resource Tracing
    → OtelConfig
    → Result (Option Tracing)
unfolding client_options
init_tracing sdk cfg =
    if not cfg.enabled then ok none else elim (sdk.new_exporter (client_options cfg)) [
      | err e ↦ err (wrapped "otlp" e)
      | ok exp ↦ elim (sdk.new_resource cfg.service_name cfg.service_version) [
        | err e ↦ err (wrapped "otel resource" e)
        | ok res ↦ ok (some (sdk.new_tracer_provider exp res))
      ]
    ]

-- HTTPTransport: `none` is a nil base, and `instrumented` is otelhttp.NewTransport.
unfoldable pub http_transport : {T : Type 0} → (T → T) → T → Option T → T
http_transport instrumented default_transport base = instrumented (or_else base default_transport)
