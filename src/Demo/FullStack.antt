-- ===== src/Demo/FullStack.antt =====
-- examples/full-stack/main.go: a service with postgres, redis and JWT. A router is the list of its
-- GET routes. The query of the time, the GET of Redis, chi.URLParam, http.Error and the JSON encoders
-- are parameters.
pub mod Clients
pub mod Routing
use hwhkit_go.Core.Shutdown
use hwhkit_go.Core.Shutdown.{new_token}
use hwhkit_go.Prelude.{
  ℕ, String, ◌≡◌, refl, inl, inr, ◌⊎◌, Bool, true, false, not, Option, none, some, List, [], ◌∷◌,
  ◌++◌, if◌then◌else◌, is_some, ◌==◌, string_eq, nat_eq,
}
use hwhkit_go.Prelude.Int.{ℤ, Duration}
use hwhkit_go.Prelude.Text.{Bytes}
use hwhkit_go.Prelude.Dict.{Dict}
use hwhkit_go.Http.{Handler, Request, Call, Run, write}
use hwhkit_go.Config.AppConfig.{AppConfig, JwtConfig, clock_skew}
use hwhkit_go.Config.Bootstrap.{BootstrapConfig}
use hwhkit_go.Core.ApiError.{ApiError}
use hwhkit_go.Core.AppContext.{AppContext}
use hwhkit_go.Core.CoreError.{Error, Result, ok, err, error_text}
use hwhkit_go.Jwt
use hwhkit_go.Jwt.{
  Claims, ClaimValue, Parsed, bearer_middleware, claims_from_context, error_message,
}
use hwhkit_go.Jwt.Keys.{Token, hmac_key, new_hmac_verifier, verify}
use hwhkit_go.Integration.World.{World, find}
use hwhkit_go.Integration.Embedded.{Part, provider_in}
use hwhkit_go.Integration.Postgres
use hwhkit_go.Integration.Redis
use hwhkit_go.Facade.{Setting, with_provider}
use hwhkit_go.Demo.Minimal.{Routes}

-- What a package keeps: its Handles, and the clients that it has opened, released and left pending.
pub record Store (H C : Type 0) : Type 0 where
  pub handles : List H
  pub opened : List C
  pub released : List C
  pub pending : List C

-- The application context, and what is behind it; the health registry is the bootstrap's.
pub record Machine (Pool Client : Type 0) : Type 0 where
  pub app : AppContext
  pub token : Shutdown.Token
  pub postgres : Store (Postgres.Handle Pool) Pool
  pub redis : Store (Redis.Handle Client) Client

abbrev pub world_of : {H C : Type 0} → AppContext → Store H C → World H C
world_of app s = record {
  app = app;
  handles = s.handles;
  opened = s.opened;
  released = s.released;
  pending = s.pending;
}

abbrev pub store_of : {H C : Type 0} → World H C → Store H C
store_of w = record {
  handles = w.handles;
  opened = w.opened;
  released = w.released;
  pending = w.pending;
}

module _ {Pool Client : Type 0} where
  abbrev pub postgres_part : Part (Machine Pool Client) (Postgres.Handle Pool) Pool
  postgres_part = record {
    view = λ m. world_of m.app m.postgres;
    put = λ w m. record m { app = w.app; postgres = store_of w };
    view_put = λ w m. refl;
  }

  abbrev pub redis_part : Part (Machine Pool Client) (Redis.Handle Client) Client
  redis_part = record {
    view = λ m. world_of m.app m.redis;
    put = λ w m. record m { app = w.app; redis = store_of w };
    view_put = λ w m. refl;
  }

  -- appctx.New puts the context into the program's state, and shutdown.New the token.
  abbrev pub enter : Machine Pool Client → AppContext → Machine Pool Client
  enter m app = record m { app = app; token = new_token }

  abbrev pub token_of : Machine Pool Client → Shutdown.Token
  token_of m = m.token

module _ {F P Pool Parsed Client : Type 0} (quote to_lower : String → String)
    (pg : Postgres.Library P Pool) (rds : Redis.Library Parsed Client) where
  -- The options that main passes to RunAndServe.
  unfoldable pub full_stack_settings : List (Setting F (Machine Pool Client))
  full_stack_settings =
      with_provider (
        provider_in postgres_part (Postgres.lifecycle quote to_lower pg) Postgres.enabled
          Postgres.required)
      ∷ with_provider
          (provider_in redis_part (Redis.lifecycle quote to_lower rds) Redis.enabled Redis.required)
      ∷ []

-- What the handlers call. `positive` and `to_int64` are those of the claims' numbers, and `verify`
-- is at a time.
pub record Libraries (N Pool Client Key : Type 0) : Type 0 where
  pub query_now : Pool → Result String
  pub redis_get : Client → String → Result String
  pub url_param : String → String → String
  pub http_error : String → ℕ → List Call
  pub encode_now : String → Bytes
  -- `none` is a nil map.
  pub encode_claims : Option (Dict (ClaimValue N)) → Bytes
  pub bytes_of : String → Bytes
  pub key_of : String → Key
  pub positive : N → Bool
  pub to_int64 : N → ℤ
  pub parse : (Token → Result Key) → Duration → String → Parsed N
  pub trim_space : String → String
  pub error_calls : ApiError → List Call

-- A nil Handle whose method is called.
abbrev pub nil_dereference : Run
nil_dereference = record { calls = []; panicked = true }

abbrev pub answers : List Call → Run
answers calls = record { calls = calls; panicked = false }

module _ {N Pool Client Key : Type 0} (quote : String → String)
    (lib : Libraries N Pool Client Key) where
  -- GET /db/now.
  unfoldable pub db_now : Option (Postgres.Handle Pool) → Handler (Claims N)
  db_now none r = nil_dereference
  db_now (some h) r = elim (lib.query_now h.pool) [
    | err e ↦ answers (lib.http_error (error_text quote e) 500)
    | ok now ↦ answers (write (lib.encode_now now) ∷ [])
  ]

  -- GET /cache/{key}.
  unfoldable pub cache_key : Option (Redis.Handle Client) → Handler (Claims N)
  cache_key none r = nil_dereference
  cache_key (some h) r = elim (lib.redis_get h.client (lib.url_param r.path "key")) [
    | err e ↦ answers (lib.http_error (error_text quote e) 404)
    | ok v ↦ answers (write (lib.bytes_of v) ∷ [])
  ]

  -- GET /whoami inside the group: FromContext returns claims with a nil map if the context has none.
  unfoldable pub whoami_inner : Handler (Claims N)
  whoami_inner r = elim (claims_from_context r.context) [
    | none ↦ answers (write (lib.encode_claims none) ∷ [])
    | some c ↦ answers (write (lib.encode_claims (some c.raw)) ∷ [])
  ]

  unfoldable pub options_of : JwtConfig → Jwt.Options
  options_of j = record { audience = j.audience; issuer = j.issuer; clock_skew = clock_skew j }

  -- The verifier's Verify, with the text of its error.
  unfoldable pub verified : JwtConfig → ℤ → String → String ⊎ Claims N
  unfolding options_of
  verified j now token =
      let v = new_hmac_verifier (lib.key_of j.hmac_secret) (options_of j) in
      elim (verify lib.positive lib.to_int64 lib.parse v.opts (hmac_key v.secret) now token) [
        | inl e ↦ inl (error_message e)
        | inr c ↦ inr c
      ]

  -- GET /whoami, with the middleware of its group.
  unfoldable pub whoami : JwtConfig → ℤ → Handler (Claims N)
  unfolding whoami_inner verified
  whoami j now = bearer_middleware lib.trim_space (verified j now) lib.error_calls whoami_inner

  -- BuildRouter; `now` is the time of a request.
  unfoldable pub build_router :
      {F : Type 0}
      → ℤ
      → Machine Pool Client
      → AppConfig F
      → Machine Pool Client × Result (Routes (Claims N))
  unfolding db_now cache_key whoami
  build_router now m cfg =
      let pg = find Postgres.handle_type (postgres_part.view m) in
      let rds = find Redis.handle_type (redis_part.view m) in
      (
        m,
        ok (
            ("/db/now", db_now pg)
            ∷ ("/cache/{key}", cache_key rds)
            ∷ (if cfg.jwt.enabled then ("/whoami", whoami cfg.jwt now) ∷ [] else [])),
      )
