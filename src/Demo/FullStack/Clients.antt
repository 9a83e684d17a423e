-- ===== src/Demo/FullStack/Clients.antt =====
-- The clients, the Handles and the routes of the full-stack service, from the bootstrap on.
use hwhkit_go.Integration.World.{World, find}
use hwhkit_go.Prelude.{ap, ℕ, String, ◌≡◌, refl, Option, [], ◌∷◌}
use hwhkit_go.Config.AppConfig.{AppConfig}
use hwhkit_go.Config.Bootstrap.{BootstrapConfig}
use hwhkit_go.Core.CoreError.{Result, ok}
use hwhkit_go.Core.Bootstrap.{Provider, BuiltApplication}
use hwhkit_go.Integration.Hosted.{Apart, Keeps}
use hwhkit_go.Integration.Lifecycle.{Lifecycle}
use hwhkit_go.Integration.Embedded.{provider_in, provider_in-Apart, provider_in-Runs}
use hwhkit_go.Integration.Postgres
use hwhkit_go.Integration.Redis
use hwhkit_go.Facade.{Loading, defaults, apply, apply_all, run}
use hwhkit_go.Facade.Release.{service_releases, left_by}
use hwhkit_go.Demo.FullStack.{
  Machine, postgres_part, redis_part, enter, full_stack_settings, token_of,
}

-- What a state shows does not change with an equal one.
kept :
    {F App H C : Type 0} (l : Lifecycle H C (AppConfig F)) (view : App → World H C) (a b : App)
    → b ≡ a
    → Keeps l view a b
kept l view a b same = (
  ap (λ x. find l.t (view x)) same,
  ap (λ x. (view x).opened) same,
  ap (λ x. (view x).released) same,
)

module _ {F P Pool Parsed Client : Type 0} (quote to_lower : String → String)
    (pg : Postgres.Library P Pool) (rds : Redis.Library Parsed Client) where
  abbrev pub postgres_provider : Provider F (Machine Pool Client)
  postgres_provider =
      provider_in postgres_part (Postgres.lifecycle quote to_lower pg) Postgres.enabled
        Postgres.required

  abbrev pub redis_provider : Provider F (Machine Pool Client)
  redis_provider =
      provider_in redis_part (Redis.lifecycle quote to_lower rds) Redis.enabled Redis.required

  pub redis-Apart :
      (c : AppConfig F)
      → Apart (Postgres.lifecycle quote to_lower pg) postgres_part.view c redis_provider
  unfolding Redis.health_check Redis.shutdown Postgres.health_check Postgres.shutdown
  redis-Apart c =
      provider_in-Apart redis_part (Redis.lifecycle quote to_lower rds) Redis.enabled Redis.required
        postgres_part (Postgres.lifecycle quote to_lower pg) c (λ w m. refl) (λ m. refl) refl

  postgres-Apart :
      (c : AppConfig F)
      → Apart (Redis.lifecycle quote to_lower rds) redis_part.view c postgres_provider
  unfolding Redis.health_check Redis.shutdown Postgres.health_check Postgres.shutdown
  postgres-Apart c =
      provider_in-Apart postgres_part (Postgres.lifecycle quote to_lower pg) Postgres.enabled
        Postgres.required redis_part (Redis.lifecycle quote to_lower rds) c (λ w m. refl)
        (λ m. refl) refl

  pub providers_of_settings :
      (l : Loading F)
      → (apply_all (full_stack_settings quote to_lower pg rds) (defaults l)).providers
        ≡ postgres_provider ∷ redis_provider ∷ []
  unfolding full_stack_settings apply_all apply defaults
  providers_of_settings l = refl

  module _ {Router : Type 0} (getenv : String → String) (default_loader : Loading F)
      (router_of : Machine Pool Client → AppConfig F → Machine Pool Client × Result Router)
      (init_metrics : ℕ) (mount : BuiltApplication F (Machine Pool Client) Router → Router) where
    -- The full-stack service with any router whose making leaves the state as it is: if Run builds it, then after a signal, when Serve
    -- returns, every pool and every Redis client that was opened has been released (its Close was
    -- started, though it may not have come to its end), if that was so of
    -- those before, whatever the databases answer.
    pub full_stack_releases :
        (m : Machine Pool Client) (bs : Option BootstrapConfig)
        (built : BuiltApplication F (Machine Pool Client) Router)
        → run quote getenv default_loader
            (enter m)
            token_of
            router_of
            bs
            (full_stack_settings quote to_lower pg rds)
          ≡ ok built
        → ((a : Machine Pool Client) → (router_of a built.cfg).0 ≡ a)
        → m.postgres.released ≡ m.postgres.opened
        → m.redis.released ≡ m.redis.opened
        → let m' =
            left_by quote getenv default_loader
              (enter m)
              token_of
              router_of
              init_metrics
              mount
              built in
          (m'.postgres.released ≡ m'.postgres.opened) × (m'.redis.released ≡ m'.redis.opened)
    full_stack_releases m bs built h keeps pools clients = (
      service_releases quote getenv default_loader (enter m) token_of router_of init_metrics mount
          (Postgres.lifecycle quote to_lower pg) postgres_part.view bs
          (full_stack_settings quote to_lower pg rds) built [] postgres_provider
          (redis_provider ∷ []) h (providers_of_settings default_loader)
          (λ a.
            kept (Postgres.lifecycle quote to_lower pg) postgres_part.view a
              (router_of a built.cfg).0 (keeps a))
          tt
          (provider_in-Runs postgres_part (Postgres.lifecycle quote to_lower pg) Postgres.enabled
            Postgres.required built.cfg)
          (redis-Apart built.cfg, tt) pools,
      service_releases quote getenv default_loader (enter m) token_of router_of init_metrics mount
          (Redis.lifecycle quote to_lower rds) redis_part.view bs
          (full_stack_settings quote to_lower pg rds) built (postgres_provider ∷ []) redis_provider
          [] h (providers_of_settings default_loader)
          (λ a.
            kept (Redis.lifecycle quote to_lower rds) redis_part.view a (router_of a built.cfg).0
              (keeps a))
          (postgres-Apart built.cfg, tt)
          (provider_in-Runs redis_part (Redis.lifecycle quote to_lower rds) Redis.enabled
            Redis.required built.cfg)
          tt clients,
    )
