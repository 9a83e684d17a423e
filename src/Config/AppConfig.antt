-- ===== src/Config/AppConfig.antt =====
-- config/appconfig.go, the configuration tree. `F` stands for float32; the struct tags, which only
-- koanf and the validator read, are left out. Maps from string to string are dictionaries.
use hwhkit_go.Prelude.{String, ◌*◌, Bool, string_eq}
use hwhkit_go.Prelude.Int.{ℤ, pos, Duration, second}
use hwhkit_go.Prelude.Dict.{Dict}
use hwhkit_go.Config.Durations.{ms_duration, ms_duration_default}
use hwhkit_go.Config.Integrations.{IntegrationsConfig}

pub record ServerConfig : Type 0 where
  pub bind_addr : String
  pub read_timeout_ms : ℤ
  pub write_timeout_ms : ℤ
  pub idle_timeout_ms : ℤ
  pub body_limit_bytes : ℤ
  pub drain_timeout_ms : ℤ
  pub handler_timeout_ms : ℤ

unfoldable pub read_timeout : ServerConfig → Duration
read_timeout s = ms_duration s.read_timeout_ms

unfoldable pub write_timeout : ServerConfig → Duration
write_timeout s = ms_duration s.write_timeout_ms

unfoldable pub idle_timeout : ServerConfig → Duration
idle_timeout s = ms_duration s.idle_timeout_ms

unfoldable pub drain_timeout : ServerConfig → Duration
drain_timeout s = ms_duration s.drain_timeout_ms

unfoldable pub handler_timeout : ServerConfig → Duration
handler_timeout s = ms_duration s.handler_timeout_ms

pub record LogConfig : Type 0 where
  pub level : String
  pub format : String

pub record MetricsConfig : Type 0 where
  pub enabled : Bool

pub record OtelConfig : Type 0 where
  pub enabled : Bool
  pub endpoint : String
  pub service_name : String
  pub service_version : String
  pub headers : Dict String
  pub insecure : Bool

pub record ObservabilityConfig : Type 0 where
  pub log : LogConfig
  pub metrics : MetricsConfig
  pub otel : OtelConfig

pub record JwtConfig : Type 0 where
  pub enabled : Bool
  pub mode : String
  pub jwks_url : String
  pub hmac_secret : String
  pub audience : String
  pub issuer : String
  pub clock_skew_ms : ℤ

unfoldable pub clock_skew : JwtConfig → Duration
clock_skew j = ms_duration j.clock_skew_ms

pub record RateLimitConfig : Type 0 where
  pub enabled : Bool
  pub limit : ℤ
  pub window_ms : ℤ
  pub burst : ℤ
  pub key_header : String

unfoldable pub window : RateLimitConfig → Duration
window r = ms_duration r.window_ms

pub record IdempotencyConfig : Type 0 where
  pub enabled : Bool
  pub ttl_ms : ℤ

unfoldable pub ttl : IdempotencyConfig → Duration
ttl i = ms_duration i.ttl_ms

pub record CircuitBreakerConfig : Type 0 where
  pub enabled : Bool
  pub max_failures : ℤ
  pub interval_ms : ℤ
  pub timeout_ms : ℤ
  pub half_open_max_calls : ℤ

unfoldable pub interval : CircuitBreakerConfig → Duration
interval c = ms_duration c.interval_ms

unfoldable pub timeout : CircuitBreakerConfig → Duration
timeout c = ms_duration c.timeout_ms

pub record SchedulerConfig : Type 0 where
  pub enabled : Bool
  pub queue : String
  pub max_workers : ℤ
  pub drain_timeout_ms : ℤ

unfoldable pub scheduler_drain_timeout : SchedulerConfig → Duration
scheduler_drain_timeout s = ms_duration_default s.drain_timeout_ms (pos (30 * second))

pub record TenantConfig : Type 0 where
  pub enabled : Bool
  pub header_name : String
  pub claim_name : String
  pub default_tenant : String

pub record RemoteConfig : Type 0 where
  pub url : String
  pub headers : Dict String
  pub timeout_ms : ℤ

unfoldable pub remote_timeout : RemoteConfig → Duration
remote_timeout r = ms_duration_default r.timeout_ms (pos (5 * second))

pub record AppConfig (F : Type 0) : Type 0 where
  pub server : ServerConfig
  pub observability : ObservabilityConfig
  pub integrations : IntegrationsConfig F
  pub jwt : JwtConfig
  pub rate_limit : RateLimitConfig
  pub idempotency : IdempotencyConfig
  pub circuit_breaker : CircuitBreakerConfig
  pub scheduler : SchedulerConfig
  pub tenant : TenantConfig
  pub remote : RemoteConfig
