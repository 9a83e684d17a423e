-- ===== src/Examples/Setup.antt =====
-- A configuration, a provider, an application and a Redis for the examples.
use hwhkit_go.Core.Shutdown.{new_token}
use hwhkit_go.Prelude.{
  ℕ, String, ◌≡◌, refl, true, false, not, ◌&&◌, none, some, [], ◌∷◌, arith, ◌==◌, nat_eq, string_eq,
  if◌then◌else◌, Option-cases, is_some,
}
use hwhkit_go.Prelude.Int.{pos, Duration}
use hwhkit_go.Prelude.Text.{Bytes, codes}
use hwhkit_go.Prelude.Dict
use hwhkit_go.Prelude.Dict.{Dict, get-put, get-remove}
use hwhkit_go.Config.AppConfig.{AppConfig, ServerConfig}
use hwhkit_go.Config.Integrations.{ResilienceConfig, IntegrationsConfig, LlmProviderCreds}
use hwhkit_go.Core.AppContext.{AppContext}
use hwhkit_go.Core.CoreError
use hwhkit_go.Core.CoreError.{Error, Result}
use hwhkit_go.Core.Features
use hwhkit_go.Core.Features.{Features, enable}
use hwhkit_go.Core.Bootstrap.{
  Provider, Loaded, BuiltApplication, base_health_check, base_shutdown, bootstrap_with,
}
use hwhkit_go.Config.Bootstrap.{BootstrapConfig}
use hwhkit_go.Http.{Request, Handler, write_header, write}
use hwhkit_go.Idempotency.{Redis, LockReply, acquired, busy}
use hwhkit_go.Idempotency.Replay.{Reliable, reply_of, lock_reply_of}

abbrev pub no_limits : ResilienceConfig
no_limits = record {
  connect_timeout_ms = pos 0;
  op_timeout_ms = pos 0;
  probe_timeout_ms = pos 0;
  shutdown_timeout_ms = pos 0;
}

abbrev pub no_creds : LlmProviderCreds
no_creds = record { api_key = ""; base_url = "" }

abbrev pub sample_server : ServerConfig
sample_server = record {
  bind_addr = ":8080";
  read_timeout_ms = pos 10000;
  write_timeout_ms = pos 10000;
  idle_timeout_ms = pos 60000;
  body_limit_bytes = pos 1048576;
  drain_timeout_ms = pos 0;
  handler_timeout_ms = pos 0;
}

-- Only Redis is enabled.
abbrev pub sample_integrations : IntegrationsConfig ℕ
sample_integrations = record {
  sql = record {
    postgres = record {
      enabled = false;
      required = false;
      url = "";
      max_connections = pos 0;
      migrations = record { run_on_start = false; path = "" };
      resilience = no_limits;
    };
  };
  redis = record {
    enabled = true;
    required = true;
    url = "redis://localhost";
    pool_size = pos 0;
    resilience = no_limits;
  };
  mongodb = record {
    enabled = false;
    required = false;
    uri = "";
    database = "";
    resilience = no_limits;
  };
  messaging = record {
    nats = record {
      enabled = false;
      required = false;
      url = "";
      jetstream = false;
      resilience = no_limits;
    };
  };
  vector = record {
    qdrant = record {
      enabled = false;
      required = false;
      host = "";
      port = pos 0;
      api_key = "";
      use_tls = false;
      resilience = no_limits;
    };
  };
  neo4j = record {
    enabled = false;
    required = false;
    uri = "";
    username = "";
    password = "";
    resilience = no_limits;
  };
  storage = record {
    s3 = record {
      enabled = false;
      required = false;
      region = "";
      bucket = "";
      endpoint = "";
      access_key = "";
      secret_key = "";
      use_path_style = false;
      resilience = no_limits;
    };
  };
  oss = record {
    enabled = false;
    required = false;
    endpoint = "";
    bucket = "";
    access_key = "";
    secret_key = "";
    resilience = no_limits;
  };
  llm = record {
    enabled = false;
    required = false;
    default_chat_model = "";
    default_embedding_model = "";
    default_temperature = 0;
    default_max_tokens = pos 0;
    resilience = no_limits;
    providers = record {
      anthropic = no_creds;
      openai = no_creds;
      deepseek = no_creds;
      moonshot = no_creds;
      ollama = no_creds;
    };
  };
}

abbrev pub sample_config : AppConfig ℕ
sample_config = record {
  server = sample_server;
  observability = record {
    log = record { level = "info"; format = "json" };
    metrics = record { enabled = true };
    otel = record {
      enabled = true;
      endpoint = "";
      service_name = "";
      service_version = "";
      headers = [];
      insecure = false;
    };
  };
  integrations = sample_integrations;
  jwt = record {
    enabled = false;
    mode = "";
    jwks_url = "";
    hmac_secret = "";
    audience = "";
    issuer = "";
    clock_skew_ms = pos 0;
  };
  rate_limit = record {
    enabled = false;
    limit = pos 0;
    window_ms = pos 0;
    burst = pos 0;
    key_header = "";
  };
  idempotency = record { enabled = false; ttl_ms = pos 0 };
  circuit_breaker = record {
    enabled = false;
    max_failures = pos 0;
    interval_ms = pos 0;
    timeout_ms = pos 0;
    half_open_max_calls = pos 0;
  };
  scheduler = record { enabled = false; queue = ""; max_workers = pos 0; drain_timeout_ms = pos 0 };
  tenant = record { enabled = false; header_name = ""; claim_name = ""; default_tenant = "" };
  remote = record { url = ""; headers = []; timeout_ms = pos 0 };
}

abbrev pub redis_provider : Provider ℕ AppContext
redis_provider = record {
  key = "redis";
  enabled = λ c. c.integrations.redis.enabled;
  required = λ c. c.integrations.redis.required;
  init = λ app c. (app, none);
  health_check = base_health_check;
  shutdown = base_shutdown;
}

-- An optional provider whose Init fails.
abbrev pub mail_provider : Provider ℕ AppContext
mail_provider = record {
  key = "mail";
  enabled = λ c. true;
  required = λ c. false;
  init = λ app c. (app, some (CoreError.plain "no route"));
  health_check = base_health_check;
  shutdown = base_shutdown;
}

abbrev pub sample_features : Features
sample_features = enable (enable Features.new "redis") "mail"

abbrev pub sample_settings : BootstrapConfig
sample_settings = record { config_dir = "config"; env = "test" }

abbrev pub sample_loader : BootstrapConfig → Result (Loaded ℕ)
sample_loader bs = CoreError.ok record { config = sample_config; applied_sources = "base" ∷ [] }

abbrev pub sample_build : Result (BuiltApplication ℕ AppContext String)
sample_build =
    bootstrap_with (λ s. s) (λ s. "") sample_loader (λ app. app) (λ app. new_token)
      (λ app c. (app, CoreError.ok "routes")) (some sample_settings) none (some sample_features)
      (redis_provider ∷ mail_provider ∷ [])

abbrev pub set_nx : String → Bytes → Duration → Dict Bytes → LockReply × Dict Bytes
set_nx k v ttl s = elim (Dict.get k s) [ none ↦ (acquired, Dict.put k v s) | some b ↦ (busy, s) ]

abbrev pub sample_redis : Redis
sample_redis = record {
  State = Dict Bytes;
  get = λ k s. reply_of (Dict.get k s);
  set_nx = set_nx;
  set = λ k v ttl s. Dict.put k v s;
  del = Dict.remove;
}

pub reply_law :
    (k : String) (v : Bytes) (ttl : Duration) (s : Dict Bytes)
    → (set_nx k v ttl s).0 ≡ lock_reply_of (Dict.get k s)
reply_law k v ttl s = ground (arith, Option-cases (Dict.get k s))

pub find_law :
    (k j : String) (v : Bytes) (ttl : Duration) (s : Dict Bytes)
    → Dict.get j (set_nx k v ttl s).1
      ≡ (if k == j && not (is_some (Dict.get k s)) then some v else Dict.get j s)
find_law k j v ttl s = ground (arith, Option-cases (Dict.get k s), get-put k j v s)

abbrev pub sample_law : Reliable sample_redis
sample_law = record {
  find = λ s k. Dict.get k s;
  get_find = λ k s. refl;
  set_nx_reply = reply_law;
  set_nx_find = find_law;
  set_find = λ k j v ttl s. get-put k j v s;
  del_find = λ k j s. get-remove k j s;
}

-- A request and handlers for the middleware.

abbrev pub sample_request : Request String
sample_request = record {
  method = "POST";
  path = "/orders";
  header = ("Idempotency-Key", "k1" ∷ []) ∷ [];
  remote_addr = "10.0.0.1";
  context = [];
}

abbrev pub created : Handler String
created r = record { calls = write_header 201 ∷ write (codes "ok") ∷ []; panicked = false }

abbrev pub crashing : Handler String
crashing r = record { calls = []; panicked = true }

abbrev pub same_text : String → String
same_text s = s
