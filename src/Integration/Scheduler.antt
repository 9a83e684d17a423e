-- ===== src/Integration/Scheduler.antt =====
-- scheduler/scheduler.go. The River client is a record of functions; `opened` of the state are the
-- clients that have been started, and `released` those that have been stopped.
use hwhkit_go.Prelude.{
  String, refl, inl, inr, Bool, false, not, Option, none, some, List, [], ◌∷◌, ◌==◌, nat_eq,
  string_eq, if◌then◌else◌, Option-cases,
}
use hwhkit_go.Prelude.Int.{ℤ, pos, is_positive}
use hwhkit_go.Config.AppConfig.{AppConfig, SchedulerConfig}
use hwhkit_go.Core.CoreError.{
  Result-cases, Error, plain, Result, ok, err, integration_of, integration_msg, not_configured,
  integration,
}
use hwhkit_go.Core.Health.{Check}
use hwhkit_go.Core.Bootstrap.{base_required, base_health_check}
use hwhkit_go.Integration.World.{close-released_with, World, track, close, publish, find}
use hwhkit_go.Integration.Connecting.{early-Settles, publish-Settles, Settles}
use hwhkit_go.Integration.Lifecycle.{Lifecycle}
use hwhkit_go.Integration.Postgres

abbrev pub key : String
key = "scheduler"

abbrev pub scheduler_type : String
scheduler_type = "scheduler.Scheduler"

pub record Scheduler (Pool Client : Type 0) : Type 0 where
  pub client : Client
  pub pool : Pool

abbrev pub State : Type 0 → Type 0 → Type 0
State Pool Client = World (Scheduler Pool Client) Client

abbrev pub clients : {Pool Client : Type 0} → Scheduler Pool Client → List Client
clients s = s.client ∷ []

-- `new_client` of a pool, a queue with its number of workers, and the registered workers.
pub record Library (Workers Pool Client : Type 0) : Type 0 where
  pub queue_default : String
  pub new_client : Pool → String → ℤ → Workers → Result Client
  pub start_client : Client → Option Error
  pub stop_client : Client → Option Error

unfoldable pub enabled : {F : Type 0} → AppConfig F → Bool
enabled c = c.scheduler.enabled

-- The one of BaseProvider.
unfoldable pub required : {F : Type 0} → AppConfig F → Bool
unfolding base_required
required c = base_required c

unfoldable pub cfg_max_workers : SchedulerConfig → ℤ
cfg_max_workers c = if not (is_positive c.max_workers) then pos 10 else c.max_workers

module _ {Workers Pool Client : Type 0} (lib : Library Workers Pool Client) where
  unfoldable pub cfg_queue_name : SchedulerConfig → String
  cfg_queue_name c = if c.queue == "" then lib.queue_default else c.queue

  -- New, with a nil pool as `none`.
  unfoldable pub new : Option Pool → SchedulerConfig → Workers → Result (Scheduler Pool Client)
  unfolding cfg_queue_name cfg_max_workers
  new none cfg workers = err (plain "scheduler: pgxpool is nil")
  new (some pool) cfg workers =
      elim (lib.new_client pool (cfg_queue_name cfg) (cfg_max_workers cfg) workers) [
        | err e ↦ err (integration_of key integration e)
        | ok client ↦ ok (record { client = client; pool = pool })
      ]

  unfoldable pub start : Scheduler Pool Client → Option Error
  start s = lib.start_client s.client

  unfoldable pub stop : Scheduler Pool Client → Option Error
  stop s = lib.stop_client s.client

  unfoldable pub shutdown : State Pool Client → State Pool Client × Option Error
  unfolding stop
  shutdown w = elim (find scheduler_type w) [
    | none ↦ (w, none)
    | some s ↦ (close s.client w, stop s)
  ]

-- appctx.Get[postgres.Handle](app), where `pools` are the Handles that the postgres provider has
-- made.
unfoldable pub find_pool :
    {Pool Client : Type 0}
    → List (Postgres.Handle Pool)
    → State Pool Client
    → Option (Postgres.Handle Pool)
find_pool {Pool} pools w =
    let pg : Postgres.State Pool = record {
      app = w.app;
      handles = pools;
      opened = [];
      released = [];
      pending = [];
    } in
    find Postgres.handle_type pg

module _ {F Workers Pool Client : Type 0} (lib : Library Workers Pool Client) (workers : Workers)
    (pools : List (Postgres.Handle Pool)) where
  unfoldable pub init : State Pool Client → AppConfig F → State Pool Client × Option Error
  unfolding new start find_pool
  init w c = elim (find_pool pools w) [
    | none ↦ (
      w,
      some (
          integration_msg key not_configured
            "scheduler requires postgres provider to be registered and initialised first"),
    )
    | some h ↦ elim (new lib (some h.pool) c.scheduler workers) [
      | err e ↦ (w, some e)
      | ok s ↦ elim (start lib s) [
        | some e ↦ (w, some (integration_of key integration e))
        | none ↦ (publish scheduler_type key s (track s.client w), none)
      ]
    ]
  ]

  -- The one of BaseProvider.
  unfoldable pub health_check : State Pool Client → AppConfig F → Option Check
  unfolding base_health_check
  health_check w c = base_health_check w.app c

  pub init-Settles :
      (w : State Pool Client) (c : AppConfig F) → Settles scheduler_type key clients w (init w c)
  unfolding init
  init-Settles w c = elim (Option-cases (find_pool pools w)) [
    | inl missing ↦ rw (missing, init) (early-Settles scheduler_type key clients w _)
    | inr (h, found) ↦ elim (Result-cases (new lib (some h.pool) c.scheduler workers)) [
      | inr (e, bad) ↦ rw (found, bad, init) (early-Settles scheduler_type key clients w _)
      | inl (s, made) ↦ elim (Option-cases (start lib s)) [
        | inr (e, bad) ↦ rw (found, made, bad, init) (early-Settles scheduler_type key clients w _)
        | inl fine ↦
            rw (found, made, fine, init)
              (publish-Settles scheduler_type key clients w s s.client refl)
      ]
    ]
  ]

  abbrev pub lifecycle : Lifecycle (Scheduler Pool Client) Client (AppConfig F)
  unfolding health_check shutdown
  lifecycle = record {
    t = scheduler_type;
    key = key;
    clients = clients;
    leaves = λ h. [];
    probed = λ s. false;
    init = init;
    health_check = health_check;
    shutdown = shutdown lib;
    init_settles = init-Settles;
    probe_of_handle = λ w c s found. refl;
    no_probe = λ w c missing. refl;
    shutdown_of_handle = λ w s found. rw (found, shutdown) (close-released_with s.client w);
    shutdown_of_none = λ w missing. rw (missing, shutdown) refl;
  }
