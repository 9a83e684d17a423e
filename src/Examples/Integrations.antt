-- ===== src/Examples/Integrations.antt =====
-- The integrations and the scheduler at concrete inputs.
use hwhkit_go.Prelude.{ℕ, String, ◌≡◌, refl, true, false, none, some, [], nat_eq, string_eq}
use hwhkit_go.Prelude.Int.{pos}
use hwhkit_go.Prelude.Text.{strip_prefix}
use hwhkit_go.Prelude.Dict
use hwhkit_go.Config.AppConfig.{AppConfig}
use hwhkit_go.Core.CoreError
use hwhkit_go.Core.CoreError.{Error, as_integration, integration}
use hwhkit_go.Core.AppContext
use hwhkit_go.Integration.World.{World, Wakeup, find, publish}
use hwhkit_go.Integration.Connecting.{Settles}
use hwhkit_go.Integration.Lifecycle.{Ends}
use hwhkit_go.Integration.Guarantees.{
  integrations_settle, integrations_release, scheduler_after_postgres,
}
use hwhkit_go.Integration.Redis
use hwhkit_go.Integration.Postgres
use hwhkit_go.Integration.Mongodb
use hwhkit_go.Integration.Nats
use hwhkit_go.Integration.Neo4j
use hwhkit_go.Integration.Qdrant
use hwhkit_go.Integration.S3
use hwhkit_go.Integration.Oss
use hwhkit_go.Integration.Scheduler
use hwhkit_go.Examples.Setup.{sample_config, sample_integrations}

-- Every integration has an address.
abbrev busy_config : AppConfig ℕ
busy_config = record sample_config {
  integrations = record sample_integrations {
    sql = record {
      postgres = record sample_integrations.sql.postgres { enabled = true; url = "postgres://db" };
    };
    mongodb = record sample_integrations.mongodb { uri = "mongodb://db" };
    messaging = record {
      nats = record sample_integrations.messaging.nats { url = "nats://bus"; jetstream = true };
    };
    neo4j = record sample_integrations.neo4j { uri = "neo4j://graph" };
  };
}

abbrev down : Error
down = CoreError.plain "connection refused"

abbrev nothing : {H C : Type 0} → World H C
nothing = record { app = AppContext.new; handles = []; opened = []; released = []; pending = [] }

-- A Redis that answers, and a Redis whose Close takes too long.
abbrev pub redis_up : Redis.Library String ℕ
redis_up = record {
  parse_url = λ u. CoreError.ok u;
  new_client = λ o. 1;
  ping = λ client d. none;
  wakes = λ client d. Wakeup.timed_out;
}

abbrev pub postgres_up : Postgres.Library String ℕ
postgres_up = record {
  parse_config = λ u. CoreError.ok (u, pos 4);
  new_with_config = λ c d. CoreError.ok 2;
  ping = λ pool d. none;
  wakes = λ pool d. Wakeup.done;
  is_deadline_exceeded = λ e. false;
}

-- It can be connected to and then does not answer a ping.
abbrev mongodb_down : Mongodb.Library ℕ
mongodb_down = record {
  connect_client = λ o d. CoreError.ok 3;
  ping = λ client d. some down;
  disconnect = λ client d. none;
}

abbrev nats_without_streams : Nats.Library ℕ String
nats_without_streams = record {
  connect = λ url d. CoreError.ok 4;
  new_jetstream = λ conn. CoreError.err down;
  is_connected = λ conn. true;
  rtt = λ conn. none;
  drain = λ conn. none;
}

abbrev neo4j_up : Neo4j.Library ℕ
neo4j_up = record {
  new_driver = λ uri user password. CoreError.ok 5;
  verify_connectivity = λ driver d. none;
  close_driver = λ driver. none;
}

abbrev qdrant_refused : Qdrant.Library ℕ
qdrant_refused = record {
  new_client = λ host port api_key tls. CoreError.err down;
  ask_health = λ client d. none;
  close_client = λ client. none;
}

abbrev s3_up : S3.Library String ℕ
s3_up = record {
  load_config = λ o. CoreError.ok "aws";
  new_from_config = λ c o. 7;
  head_bucket = λ client bucket d. none;
}

abbrev oss_up : Oss.Library ℕ
oss_up = record {
  new_client = λ endpoint access secret connect op. CoreError.ok 8;
  seconds = λ d. pos 0;
  get_bucket_info = λ client bucket. none;
  ask = λ client bucket d. Oss.timer;
}

abbrev same : String → String
same s = s

integrations_settle_example :
    Settles Redis.handle_type "redis" Redis.clients nothing
      (Redis.init same same redis_up nothing busy_config)
    × Settles Postgres.handle_type "postgres" Postgres.clients nothing
        (Postgres.init same same postgres_up nothing busy_config)
    × Settles Mongodb.handle_type "mongodb" Mongodb.clients nothing
        (Mongodb.init same mongodb_down nothing busy_config)
    × Settles Nats.handle_type "nats" Nats.clients nothing
        (Nats.init same nats_without_streams nothing busy_config)
    × Settles Neo4j.handle_type "neo4j" Neo4j.clients nothing
        (Neo4j.init same neo4j_up nothing busy_config)
    × Settles Qdrant.handle_type "qdrant" Qdrant.clients nothing
        (Qdrant.init same qdrant_refused nothing busy_config)
    × Settles S3.handle_type "s3" S3.clients nothing (S3.init same s3_up nothing busy_config)
    × Settles Oss.handle_type "oss" Oss.clients nothing (Oss.init same oss_up nothing busy_config)
integrations_settle_example =
    integrations_settle same same busy_config redis_up nothing postgres_up nothing mongodb_down
      nothing nats_without_streams nothing neo4j_up nothing qdrant_refused nothing s3_up nothing
      oss_up nothing

integrations_release_example :
    Ends (Redis.lifecycle same same redis_up) nothing busy_config
    × Ends (Postgres.lifecycle same same postgres_up) nothing busy_config
    × Ends (Mongodb.lifecycle same mongodb_down) nothing busy_config
    × Ends (Nats.lifecycle same nats_without_streams) nothing busy_config
    × Ends (Neo4j.lifecycle same neo4j_up) nothing busy_config
    × Ends (Qdrant.lifecycle same qdrant_refused) nothing busy_config
integrations_release_example =
    integrations_release same same busy_config redis_up nothing postgres_up nothing mongodb_down
      nothing nats_without_streams nothing neo4j_up nothing qdrant_refused nothing refl refl refl
      refl refl refl

-- A River that cannot start.
abbrev river_stuck : Scheduler.Library String ℕ ℕ
river_stuck = record {
  queue_default = "default";
  new_client = λ pool queue workers w. CoreError.ok 9;
  start_client = λ client. some down;
  stop_client = λ client. none;
}

scheduler_after_postgres_example :
    as_integration (CoreError.integration_of "scheduler" integration down)
    ≡ some ("scheduler", integration)
unfolding Postgres.init Postgres.has_scheme strip_prefix Postgres.connect Scheduler.init
    Scheduler.new Scheduler.start Scheduler.find_pool publish find AppContext.insert
    AppContext.insert_named AppContext.get AppContext.type_key Dict.put Dict.get AppContext.new
scheduler_after_postgres_example =
    scheduler_after_postgres same same postgres_up river_stuck "workers" busy_config nothing nothing
      (CoreError.integration_of "scheduler" integration down) refl refl
