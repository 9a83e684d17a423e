-- ===== src/Config/Integrations.antt =====
-- config/appconfig.go, the configuration of the integrations. `F` stands for float32.
use hwhkit_go.Prelude.{String, ◌*◌, Bool, ◌||◌, not, ◌==◌, string_eq}
use hwhkit_go.Prelude.Int.{ℤ, pos, Duration, second}
use hwhkit_go.Config.Durations.{ms_duration_default}

pub record ResilienceConfig : Type 0 where
  pub connect_timeout_ms : ℤ
  pub op_timeout_ms : ℤ
  pub probe_timeout_ms : ℤ
  pub shutdown_timeout_ms : ℤ

unfoldable pub connect_timeout : ResilienceConfig → Duration
connect_timeout r = ms_duration_default r.connect_timeout_ms (pos (5 * second))

unfoldable pub op_timeout : ResilienceConfig → Duration
op_timeout r = ms_duration_default r.op_timeout_ms (pos (10 * second))

unfoldable pub probe_timeout : ResilienceConfig → Duration
probe_timeout r = ms_duration_default r.probe_timeout_ms (pos (2 * second))

unfoldable pub shutdown_timeout : ResilienceConfig → Duration
shutdown_timeout r = ms_duration_default r.shutdown_timeout_ms (pos (5 * second))

pub record LlmProviderCreds : Type 0 where
  pub api_key : String
  pub base_url : String

unfoldable pub is_configured : LlmProviderCreds → Bool
is_configured c = not (c.api_key == "") || not (c.base_url == "")

pub record LlmProviders : Type 0 where
  pub anthropic : LlmProviderCreds
  pub openai : LlmProviderCreds
  pub deepseek : LlmProviderCreds
  pub moonshot : LlmProviderCreds
  pub ollama : LlmProviderCreds

pub record LlmConfig (F : Type 0) : Type 0 where
  pub enabled : Bool
  pub required : Bool
  pub default_chat_model : String
  pub default_embedding_model : String
  pub default_temperature : F
  pub default_max_tokens : ℤ
  pub resilience : ResilienceConfig
  pub providers : LlmProviders

pub record MigrationConfig : Type 0 where
  pub run_on_start : Bool
  pub path : String

pub record PostgresConfig : Type 0 where
  pub enabled : Bool
  pub required : Bool
  pub url : String
  pub max_connections : ℤ
  pub migrations : MigrationConfig
  pub resilience : ResilienceConfig

pub record SqlConfig : Type 0 where
  pub postgres : PostgresConfig

pub record RedisConfig : Type 0 where
  pub enabled : Bool
  pub required : Bool
  pub url : String
  pub pool_size : ℤ
  pub resilience : ResilienceConfig

pub record MongodbConfig : Type 0 where
  pub enabled : Bool
  pub required : Bool
  pub uri : String
  pub database : String
  pub resilience : ResilienceConfig

pub record NatsConfig : Type 0 where
  pub enabled : Bool
  pub required : Bool
  pub url : String
  pub jetstream : Bool
  pub resilience : ResilienceConfig

pub record MessagingConfig : Type 0 where
  pub nats : NatsConfig

pub record QdrantConfig : Type 0 where
  pub enabled : Bool
  pub required : Bool
  pub host : String
  pub port : ℤ
  pub api_key : String
  pub use_tls : Bool
  pub resilience : ResilienceConfig

pub record VectorConfig : Type 0 where
  pub qdrant : QdrantConfig

pub record Neo4jConfig : Type 0 where
  pub enabled : Bool
  pub required : Bool
  pub uri : String
  pub username : String
  pub password : String
  pub resilience : ResilienceConfig

pub record S3Config : Type 0 where
  pub enabled : Bool
  pub required : Bool
  pub region : String
  pub bucket : String
  pub endpoint : String
  pub access_key : String
  pub secret_key : String
  pub use_path_style : Bool
  pub resilience : ResilienceConfig

pub record StorageConfig : Type 0 where
  pub s3 : S3Config

pub record OssConfig : Type 0 where
  pub enabled : Bool
  pub required : Bool
  pub endpoint : String
  pub bucket : String
  pub access_key : String
  pub secret_key : String
  pub resilience : ResilienceConfig

pub record IntegrationsConfig (F : Type 0) : Type 0 where
  pub sql : SqlConfig
  pub redis : RedisConfig
  pub mongodb : MongodbConfig
  pub messaging : MessagingConfig
  pub vector : VectorConfig
  pub neo4j : Neo4jConfig
  pub storage : StorageConfig
  pub oss : OssConfig
  pub llm : LlmConfig F
