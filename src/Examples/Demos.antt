-- ===== src/Examples/Demos.antt =====
-- The example services at concrete inputs.
use hwhkit_go.Core.Shutdown.{new_token}
use hwhkit_go.Prelude.{ℕ, String, true, [], ◌∷◌, some, false, none, ◌≡◌, refl, All}
use hwhkit_go.Prelude.Int.{pos}
use hwhkit_go.Prelude.Text.{codes, append}
use hwhkit_go.Config.AppConfig.{AppConfig}
use hwhkit_go.Config.Bootstrap.{BootstrapConfig}
use hwhkit_go.Core.AppContext
use hwhkit_go.Core.CoreError
use hwhkit_go.Core.CoreError.{Result}
use hwhkit_go.Core.Bootstrap.{
  Loaded, BuiltApplication, start, bootstrap_with, init_providers, init_provider,
  validate_feature_mapping,
}
use hwhkit_go.Jwt
use hwhkit_go.Jwt.{Claims}
use hwhkit_go.Facade.{apply_all, defaults, Options, run, apply}
use hwhkit_go.Demo.Minimal.{Routes}
use hwhkit_go.Demo.FullStack.{
  Machine, Libraries, full_stack_settings, build_router, enter, token_of, postgres_part, db_now,
}
use hwhkit_go.Examples.Setup.{sample_config, sample_integrations, sample_settings}
use hwhkit_go.Examples.Integrations.{redis_up, postgres_up}
use hwhkit_go.Core.Bootstrap.Providers.{extended}
use hwhkit_go.Core.Bootstrap.Outcome.{built_from}
use hwhkit_go.Facade.Release.{left_by, service_releases}
use hwhkit_go.Demo.FullStack.Clients.{
  full_stack_releases, postgres_provider, redis_provider, redis-Apart,
}
use hwhkit_go.Demo.FullStack.Routing.{full_stack_never_panics, IsSafe}
use hwhkit_go.Core.Features
use hwhkit_go.Prelude.Dict
use hwhkit_go.Integration.Embedded.{provider_in, provider_in-Runs}
use hwhkit_go.Integration.Redis
use hwhkit_go.Integration.Postgres
use hwhkit_go.Core.Features
use hwhkit_go.Prelude.Dict
use hwhkit_go.Integration.Lifecycle.{Balanced}
use hwhkit_go.Observability.{Sdk}
use hwhkit_go.Http.{Request, Handler}
use hwhkit_go.Http.Response.{blank_response, perform_all, status_of}
use hwhkit_go.Production.Chain.{Parts, root_handler}
use hwhkit_go.Production.Chain.Panics.{root_500, PassesOn, Dead}

abbrev same : String → String
same s = s

abbrev stack_config : AppConfig ℕ
stack_config = record sample_config {
  integrations = record sample_integrations {
    sql = record {
      postgres = record sample_integrations.sql.postgres {
        enabled = true;
        required = true;
        url = "postgres://db";
      };
    };
  };
}

abbrev stack_loaded : Loaded ℕ
stack_loaded = record { config = stack_config; applied_sources = "base" ∷ [] }

abbrev stack_loader : BootstrapConfig → Result (Loaded ℕ)
stack_loader bs = CoreError.ok stack_loaded

-- A Redis without the key, and a database that answers.
abbrev stack_libraries : Libraries ℕ ℕ ℕ String
stack_libraries = record {
  query_now = λ pool. CoreError.ok "noon";
  redis_get = λ client key. CoreError.err (CoreError.plain "redis: nil");
  url_param = λ path name. path;
  http_error = λ text code. [];
  encode_now = codes;
  encode_claims = λ c. [];
  bytes_of = codes;
  key_of = same;
  positive = λ n. true;
  to_int64 = pos;
  parse = λ key skew token. Jwt.parse_error;
  trim_space = same;
  error_calls = λ e. [];
}

abbrev machine : Machine ℕ ℕ
machine = record {
  token = new_token;
  app = AppContext.new;
  postgres = record { handles = []; opened = []; released = []; pending = [] };
  redis = record { handles = []; opened = []; released = []; pending = [] };
}

abbrev router_of : Machine ℕ ℕ → AppConfig ℕ → Machine ℕ ℕ × Result (Routes (Claims ℕ))
router_of = build_router same stack_libraries (pos 100)

abbrev stack_options : Options ℕ (Machine ℕ ℕ)
stack_options =
    apply_all (full_stack_settings same same postgres_up redis_up) (defaults stack_loader)

abbrev built_stack : BuiltApplication ℕ (Machine ℕ ℕ) (Routes (Claims ℕ))
unfolding full_stack_settings apply_all apply defaults build_router
built_stack =
    let m = (extended stack_config stack_options.providers (start (enter machine))).app in
    built_from same same stack_loader (enter machine) token_of router_of (some sample_settings)
      stack_options.loader (some stack_options.features) stack_options.providers stack_loaded
      (elim (router_of m stack_config).1 [ CoreError.ok rs ↦ rs | CoreError.err e ↦ [] ])

stack_runs :
    run same same stack_loader
      (enter machine)
      token_of
      router_of
      (some sample_settings)
      (full_stack_settings same same postgres_up redis_up)
    ≡ CoreError.ok built_stack
unfolding run full_stack_settings apply_all apply defaults build_router bootstrap_with provider_in
    Redis.health_check Redis.shutdown Postgres.health_check Postgres.shutdown Redis.init
    Postgres.init init_providers init_provider validate_feature_mapping Features.contains
    Features.enable Features.new Dict.get Dict.put Postgres.enabled Postgres.required Redis.enabled
    Redis.required
stack_runs = refl

full_stack_releases_example :
    let m' =
      left_by same same stack_loader
        (enter machine)
        token_of
        router_of
        9
        (λ b. b.router)
        built_stack in
    (m'.postgres.released ≡ m'.postgres.opened) × (m'.redis.released ≡ m'.redis.opened)
unfolding build_router
full_stack_releases_example =
    full_stack_releases same same postgres_up redis_up same stack_loader router_of 9 (λ b. b.router)
      machine (some sample_settings) built_stack stack_runs (λ a. refl) refl refl

full_stack_never_panics_example : All IsSafe built_stack.router
unfolding Postgres.enabled Postgres.required Redis.enabled Redis.required full_stack_settings
    apply_all apply defaults build_router
full_stack_never_panics_example =
    full_stack_never_panics same same same postgres_up redis_up stack_libraries stack_loader
      (pos 100) machine (some sample_settings) built_stack stack_runs refl refl refl refl

service_releases_example :
    let m' =
      left_by same same stack_loader
        (enter machine)
        token_of
        router_of
        9
        (λ b. b.router)
        built_stack in
    Balanced (postgres_part.view m')
unfolding full_stack_settings apply_all apply defaults Redis.health_check Redis.shutdown
    Postgres.health_check Postgres.shutdown built_stack
service_releases_example =
    service_releases same same stack_loader (enter machine) token_of router_of 9 (λ b. b.router)
      (Postgres.lifecycle same same postgres_up) postgres_part.view (some sample_settings)
      (full_stack_settings same same postgres_up redis_up) built_stack []
      (postgres_provider same same postgres_up redis_up)
      (redis_provider same same postgres_up redis_up ∷ []) stack_runs refl (λ a. (refl, refl, refl))
      tt
      (provider_in-Runs postgres_part (Postgres.lifecycle same same postgres_up) Postgres.enabled
        Postgres.required stack_config)
      (redis-Apart same same postgres_up redis_up stack_config, tt) refl

-- Nothing is enabled.
abbrev bare_config : AppConfig ℕ
bare_config = record sample_config {
  integrations = record sample_integrations {
    redis = record sample_integrations.redis { enabled = false };
  };
}

abbrev bare_loader : BootstrapConfig → Result (Loaded ℕ)
bare_loader bs = CoreError.ok record { config = bare_config; applied_sources = [] }

abbrev quiet_sdk : Sdk String String String
quiet_sdk = record {
  new_exporter = λ options. CoreError.ok "exporter";
  new_resource = λ name version. CoreError.ok name;
  new_tracer_provider = λ exp res. append exp res;
}

-- A compressor and a timeout that are never needed.
abbrev plain_parts : Parts (Claims ℕ)
plain_parts = record {
  new_v7 = some "id-1";
  new_string = "id-2";
  status_text = λ code. "";
  encode = λ e. [];
  itoa = λ n. "86400";
  compressor = λ level types next. next;
  max_bytes = λ n r. r;
  timeout_handler = λ next d. next;
  route_pattern = "/db/now";
}

plain_parts-PassesOn : PassesOn plain_parts
plain_parts-PassesOn = record {
  compressor_dies = λ level types next dead. dead;
  timeout_dies = λ next d dead. dead;
  same_method = λ n r. refl;
}

abbrev get_now : Request (Claims ℕ)
get_now = record {
  method = "GET";
  path = "/db/now";
  header = [];
  remote_addr = "10.0.0.1:99";
  context = [];
}

-- GET /db/now of the full-stack service without a Handle of postgres.
abbrev now_without_pool : Handler (Claims ℕ)
now_without_pool = db_now same stack_libraries none

no_pool-Dead : Dead now_without_pool
unfolding db_now
no_pool-Dead r other = (refl, refl)

root_500_example :
    ((root_handler plain_parts stack_config.server now_without_pool get_now).panicked ≡ false)
    × (status_of (
          perform_all blank_response
            (root_handler plain_parts stack_config.server now_without_pool get_now).calls)
        ≡ 500)
root_500_example =
    root_500 plain_parts stack_config.server now_without_pool get_now plain_parts-PassesOn
      no_pool-Dead refl
