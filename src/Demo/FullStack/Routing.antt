-- ===== src/Demo/FullStack/Routing.antt =====
-- What the handlers of the full-stack service do with the Handles that they are given.
use hwhkit_go.Prelude.{
  String, ◌≡◌, refl, ap, ◌∙◌, inl, inr, ◌⊎◌, true, false, Option, none, some, [], ◌∷◌, All,
  Bool-cases, subst,
}
use hwhkit_go.Prelude.Int.{ℤ}
use hwhkit_go.Http.{Handler, Request, with_value}
use hwhkit_go.Config.AppConfig.{AppConfig, JwtConfig, clock_skew}
use hwhkit_go.Config.Bootstrap.{BootstrapConfig}
use hwhkit_go.Core.CoreError.{ok, Result-cases, ok-injective}
use hwhkit_go.Core.Bootstrap.{BuiltApplication, first_context}
use hwhkit_go.Core.Bootstrap.Providers.{final_app, outcomes, failed}
use hwhkit_go.Core.Bootstrap.Outcome.{bootstrap_with-WellBuilt, IsOptional}
use hwhkit_go.Jwt.{Claims, bearer_middleware, bearer, claims_from_context}
use hwhkit_go.Integration.World.{find}
use hwhkit_go.Integration.Hosted.Found.{find-final_app}
use hwhkit_go.Integration.Embedded.{provider_in, provider_in-Runs}
use hwhkit_go.Integration.Postgres
use hwhkit_go.Integration.Redis
use hwhkit_go.Facade.{Loading, defaults, apply_all, run}
use hwhkit_go.Demo.Minimal.{Routes}
use hwhkit_go.Demo.FullStack.{
  Machine, Libraries, postgres_part, redis_part, enter, full_stack_settings, token_of, db_now,
  cache_key, whoami, whoami_inner, verified, build_router,
}
use hwhkit_go.Demo.FullStack.Clients.{
  postgres_provider, redis_provider, redis-Apart, providers_of_settings,
}

-- No request makes the handler panic.
abbrev pub IsSafe : {C : Type 0} → String × Handler C → Type 0
IsSafe {C} (pattern, handler) = (r : Request C) → (handler r).panicked ≡ false

module _ {N Pool Client Key : Type 0} (quote : String → String)
    (lib : Libraries N Pool Client Key) where
  db_now-IsSafe :
      (h : Postgres.Handle Pool) (r : Request (Claims N))
      → (db_now quote lib (some h) r).panicked ≡ false
  unfolding db_now
  db_now-IsSafe h r = elim (Result-cases (lib.query_now h.pool)) [
    | inl (now, good) ↦ rw (good, db_now) refl
    | inr (e, bad) ↦ rw (bad, db_now) refl
  ]

  cache_key-IsSafe :
      (h : Redis.Handle Client) (r : Request (Claims N))
      → (cache_key quote lib (some h) r).panicked ≡ false
  unfolding cache_key
  cache_key-IsSafe h r = elim (Result-cases (lib.redis_get h.client (lib.url_param r.path "key"))) [
    | inl (v, good) ↦ rw (good, cache_key) refl
    | inr (e, bad) ↦ rw (bad, cache_key) refl
  ]

  -- The handler of the group runs only with the claims in its context.
  whoami-IsSafe :
      (j : JwtConfig) (now : ℤ) (r : Request (Claims N))
      → (whoami quote lib j now r).panicked ≡ false
  unfolding whoami bearer_middleware whoami_inner claims_from_context with_value
  whoami-IsSafe j now r = by_token (bearer lib.trim_space r) refl
    where
      by_verdict :
          (tok : String) (v : String ⊎ Claims N)
          → bearer lib.trim_space r ≡ some tok
          → verified quote lib j now tok ≡ v
          → (whoami quote lib j now r).panicked ≡ false
      by_verdict tok (inl e) found refused = rw (whoami, bearer_middleware, found, refused) refl
      by_verdict tok (inr c) found good = rw (whoami, bearer_middleware, found, good) refl

      by_token :
          (b : Option String)
          → bearer lib.trim_space r ≡ b
          → (whoami quote lib j now r).panicked ≡ false
      by_token none missing = rw (whoami, bearer_middleware, missing) refl
      by_token (some tok) found = by_verdict tok (verified quote lib j now tok) found refl

  -- The routes that BuildRouter makes where both Handles are found.
  routes-IsSafe :
      {F : Type 0} (now : ℤ) (m : Machine Pool Client) (cfg : AppConfig F) (rs : Routes (Claims N))
      (h : Postgres.Handle Pool) (k : Redis.Handle Client)
      → (build_router quote lib now m cfg).1 ≡ ok rs
      → find Postgres.handle_type (postgres_part.view m) ≡ some h
      → find Redis.handle_type (redis_part.view m) ≡ some k
      → All IsSafe rs
  unfolding build_router clock_skew
  routes-IsSafe now m cfg rs h k built pool client = subst (All IsSafe) (ok-injective built) (
      rw (pool, client)
        (
          db_now-IsSafe h,
          (
            cache_key-IsSafe k,
            elim (Bool-cases cfg.jwt.enabled) [
              | inl on ↦ rw (on) (whoami-IsSafe cfg.jwt now, tt)
              | inr off ↦ rw (off) tt
            ],
          ),
        ))

module _ {F P Pool Parsed Client N Key : Type 0} (quote to_lower getenv : String → String)
    (pg : Postgres.Library P Pool) (rds : Redis.Library Parsed Client)
    (lib : Libraries N Pool Client Key) (default_loader : Loading F) where
  -- If the configuration enables and requires postgres and redis and Run builds the full-stack
  -- service, no request to any of its routes makes a handler panic, whatever state the program had,
  -- with or without JWT: the nil Handles that BuildRouter does not look for are never used.
  pub full_stack_never_panics :
      (now : ℤ) (m : Machine Pool Client) (bs : Option BootstrapConfig)
      (built : BuiltApplication F (Machine Pool Client) (Routes (Claims N)))
      → run quote getenv default_loader
          (enter m)
          token_of
          (build_router quote lib now)
          bs
          (full_stack_settings quote to_lower pg rds)
        ≡ ok built
      → Postgres.enabled built.cfg ≡ true
      → Postgres.required built.cfg ≡ true
      → Redis.enabled built.cfg ≡ true
      → Redis.required built.cfg ≡ true
      → All IsSafe built.router
  unfolding run provider_in Redis.health_check Redis.shutdown Postgres.health_check
      Postgres.shutdown
  full_stack_never_panics now m bs built h pg_on pg_must rds_on rds_must =
      let o = apply_all (full_stack_settings quote to_lower pg rds) (defaults default_loader) in
      let good =
        bootstrap_with-WellBuilt quote getenv default_loader (enter m) token_of
          (build_router quote lib now) bs (o.loader) (some (o.features)) (o.providers) built h in
      let a0 = enter m first_context in
      let ps =
        postgres_provider quote to_lower pg rds ∷ redis_provider quote to_lower pg rds ∷ [] in
      let all_of_them = providers_of_settings quote to_lower pg rds default_loader in
      let optional : All (IsOptional built.cfg) (failed (outcomes built.cfg ps a0)) =
        subst (λ qs. All (IsOptional built.cfg) (failed (outcomes built.cfg qs a0))) all_of_them
          good.optional in
      let before = final_app built.cfg o.providers a0 in
      let state : before ≡ final_app built.cfg ps a0 =
        ap (λ qs. final_app built.cfg qs a0) all_of_them in
      let (pool, pool_found) =
        find-final_app (Postgres.lifecycle quote to_lower pg) postgres_part.view built.cfg []
          (postgres_provider quote to_lower pg rds) (redis_provider quote to_lower pg rds ∷ []) a0
          (provider_in-Runs postgres_part (Postgres.lifecycle quote to_lower pg) Postgres.enabled
            Postgres.required built.cfg)
          (redis-Apart quote to_lower pg rds built.cfg, tt) pg_on pg_must optional in
      let (client, client_found) =
        find-final_app (Redis.lifecycle quote to_lower rds) redis_part.view built.cfg
          (postgres_provider quote to_lower pg rds ∷ []) (redis_provider quote to_lower pg rds) []
          a0
          (provider_in-Runs redis_part (Redis.lifecycle quote to_lower rds) Redis.enabled
            Redis.required built.cfg)
          tt rds_on rds_must optional in
      routes-IsSafe quote lib now before built.cfg built.router pool client good.routed
        (ap (λ a. find Postgres.handle_type (postgres_part.view a)) state ∙ pool_found)
        (ap (λ a. find Redis.handle_type (redis_part.view a)) state ∙ client_found)
