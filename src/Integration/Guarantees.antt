-- ===== src/Integration/Guarantees.antt =====
-- What holds of the Init and Shutdown of every integration, and of the scheduler after postgres.
use hwhkit_go.Prelude.{
  String, ◌≡◌, refl, sym, ap, ◌∙◌, inl, inr, none, some, List, nat_eq, string_eq, Option-cases,
}
use mathlib.Core.Option.{none-ne-some, some-injective}
use hwhkit_go.Config.AppConfig.{AppConfig}
use hwhkit_go.Core.CoreError.{Error, integration, as_integration, Result-cases, integration_of}
use hwhkit_go.Integration.Connecting.{Settles}
use hwhkit_go.Integration.Lifecycle.{Ends, find-Settles, run_through-Ends}
use hwhkit_go.Integration.World.{find}
use hwhkit_go.Integration.Redis
use hwhkit_go.Integration.Postgres
use hwhkit_go.Integration.Mongodb
use hwhkit_go.Integration.Nats
use hwhkit_go.Integration.Neo4j
use hwhkit_go.Integration.Qdrant
use hwhkit_go.Integration.S3
use hwhkit_go.Integration.Oss
use hwhkit_go.Integration.Scheduler

module _ {F : Type 0} (quote to_lower : String → String) (c : AppConfig F) where
  -- The Init of each of the eight integrations, in any state: with an error it leaves the
  -- application context and the Handles as they were and has released every client that it opened;
  -- with none the Handle is found under its type and, with the same contents, under its key, no
  -- client has been released, those that were opened are the Handle's, and what the context has under
  -- other types is as it was; either way no Close is left pending.
  pub integrations_settle :
      {P1 C1 P2 C2 C3 C4 J4 C5 C6 P7 C7 C8 : Type 0} (redis : Redis.Library P1 C1)
      (w1 : Redis.State C1) (postgres : Postgres.Library P2 C2) (w2 : Postgres.State C2)
      (mongodb : Mongodb.Library C3) (w3 : Mongodb.State C3) (nats : Nats.Library C4 J4)
      (w4 : Nats.State C4 J4) (neo4j : Neo4j.Library C5) (w5 : Neo4j.State C5)
      (qdrant : Qdrant.Library C6) (w6 : Qdrant.State C6) (s3 : S3.Library P7 C7) (w7 : S3.State C7)
      (oss : Oss.Library C8) (w8 : Oss.State C8)
      → Settles Redis.handle_type "redis" Redis.clients w1 (Redis.init quote to_lower redis w1 c)
        × Settles Postgres.handle_type "postgres" Postgres.clients w2
            (Postgres.init quote to_lower postgres w2 c)
        × Settles Mongodb.handle_type "mongodb" Mongodb.clients w3 (Mongodb.init quote mongodb w3 c)
        × Settles Nats.handle_type "nats" Nats.clients w4 (Nats.init quote nats w4 c)
        × Settles Neo4j.handle_type "neo4j" Neo4j.clients w5 (Neo4j.init quote neo4j w5 c)
        × Settles Qdrant.handle_type "qdrant" Qdrant.clients w6 (Qdrant.init quote qdrant w6 c)
        × Settles S3.handle_type "s3" S3.clients w7 (S3.init quote s3 w7 c)
        × Settles Oss.handle_type "oss" Oss.clients w8 (Oss.init quote oss w8 c)
  integrations_settle redis w1 postgres w2 mongodb w3 nats w4 neo4j w5 qdrant w6 s3 w7 oss w8 = (
    Redis.init-Settles quote to_lower redis w1 c,
    Postgres.init-Settles quote to_lower postgres w2 c,
    Mongodb.init-Settles quote mongodb w3 c,
    Nats.init-Settles quote nats w4 c,
    Neo4j.init-Settles quote neo4j w5 c,
    Qdrant.init-Settles quote qdrant w6 c,
    S3.init-Settles quote s3 w7 c,
    Oss.init-Settles quote oss w8 c,
  )

  -- If each client that was opened before has been released (its Close, Disconnect or Drain was called
  -- or started), then so has every one after Init and, where that succeeds, Shutdown, whatever the
  -- libraries answer. Those whose Close or Drain has not come to its end then are those of before and,
  -- where Init succeeds, the client of Redis or Postgres if the wait for its Close was cut short, and
  -- that of NATS if its Drain started.
  pub integrations_release :
      {P1 C1 P2 C2 C3 C4 J4 C5 C6 : Type 0} (redis : Redis.Library P1 C1) (w1 : Redis.State C1)
      (postgres : Postgres.Library P2 C2) (w2 : Postgres.State C2) (mongodb : Mongodb.Library C3)
      (w3 : Mongodb.State C3) (nats : Nats.Library C4 J4) (w4 : Nats.State C4 J4)
      (neo4j : Neo4j.Library C5) (w5 : Neo4j.State C5) (qdrant : Qdrant.Library C6)
      (w6 : Qdrant.State C6)
      → w1.released ≡ w1.opened
      → w2.released ≡ w2.opened
      → w3.released ≡ w3.opened
      → w4.released ≡ w4.opened
      → w5.released ≡ w5.opened
      → w6.released ≡ w6.opened
      → Ends (Redis.lifecycle quote to_lower redis) w1 c
        × Ends (Postgres.lifecycle quote to_lower postgres) w2 c
        × Ends (Mongodb.lifecycle quote mongodb) w3 c
        × Ends (Nats.lifecycle quote nats) w4 c
        × Ends (Neo4j.lifecycle quote neo4j) w5 c
        × Ends (Qdrant.lifecycle quote qdrant) w6 c
  integrations_release redis w1 postgres w2 mongodb w3 nats w4 neo4j w5 qdrant w6 b1 b2 b3 b4 b5
        b6 =
      (
        run_through-Ends (Redis.lifecycle quote to_lower redis) w1 c b1,
        run_through-Ends (Postgres.lifecycle quote to_lower postgres) w2 c b2,
        run_through-Ends (Mongodb.lifecycle quote mongodb) w3 c b3,
        run_through-Ends (Nats.lifecycle quote nats) w4 c b4,
        run_through-Ends (Neo4j.lifecycle quote neo4j) w5 c b5,
        run_through-Ends (Qdrant.lifecycle quote qdrant) w6 c b6,
      )

-- Each error that can come after the pool is found is made by coreerror.Integration.
from_integration :
    (e cause : Error)
    → some (integration_of "scheduler" integration cause) ≡ some e
    → as_integration e ≡ some ("scheduler", integration)
unfolding as_integration integration_of
from_integration e cause h =
    ap as_integration (sym (some-injective (integration_of "scheduler" integration cause) e h))

module _ {F Pool Workers Client : Type 0} (river : Scheduler.Library Workers Pool Client)
    (workers : Workers) (pools : List (Postgres.Handle Pool)) (c : AppConfig F) where
  init-kind :
      (s : Scheduler.State Pool Client) (h : Postgres.Handle Pool) (e : Error)
      → Scheduler.find_pool pools s ≡ some h
      → (Scheduler.init river workers pools s c).1 ≡ some e
      → as_integration e ≡ some ("scheduler", integration)
  unfolding Scheduler.init Scheduler.new Scheduler.start
  init-kind s h e found wrong =
      let ini = Scheduler.init river workers pools s c in
      let made =
        river.new_client h.pool (Scheduler.cfg_queue_name river c.scheduler)
          (Scheduler.cfg_max_workers c.scheduler) workers in
      elim (Result-cases made) [
        | inr (cause, bad) ↦
            let result : ini.1 ≡ some (integration_of "scheduler" integration cause) =
              rw (found, bad, Scheduler.init, Scheduler.new) refl in
            from_integration e cause (sym result ∙ wrong)
        | inl (client, good) ↦ elim (Option-cases (river.start_client client)) [
          | inr (cause, bad) ↦
              let result : ini.1 ≡ some (integration_of "scheduler" integration cause) =
                rw (found, good, bad, Scheduler.init, Scheduler.new, Scheduler.start) refl in
              from_integration e cause (sym result ∙ wrong)
          | inl fine ↦
              let result : ini.1 ≡ none =
                rw (found, good, fine, Scheduler.init, Scheduler.new, Scheduler.start) refl in
              absurd (none-ne-some e (sym result ∙ wrong))
        ]
      ]

module _ {F P Pool Workers Client : Type 0} (quote to_lower : String → String)
    (pg : Postgres.Library P Pool) (river : Scheduler.Library Workers Pool Client)
    (workers : Workers) (c : AppConfig F) where
  -- After an Init of postgres with no error, the scheduler finds its pool: an error of its own Init
  -- is then one of River, of the kind `integration`, and not that postgres is missing.
  pub scheduler_after_postgres :
      (w : Postgres.State Pool) (s : Scheduler.State Pool Client) (e : Error)
      → (Postgres.init quote to_lower pg w c).1 ≡ none
      → let w' = (Postgres.init quote to_lower pg w c).0 in
        (Scheduler.init river workers w'.handles (record s { app = w'.app }) c).1 ≡ some e
        → as_integration e ≡ some ("scheduler", integration)
  unfolding Scheduler.find_pool find
  scheduler_after_postgres w s e done wrong =
      let w' = (Postgres.init quote to_lower pg w c).0 in
      let (h, found) =
        find-Settles Postgres.handle_type Postgres.key Postgres.clients w
          (Postgres.init quote to_lower pg w c) (Postgres.init-Settles quote to_lower pg w c)
          done in
      init-kind river workers w'.handles c (record s { app = w'.app }) h e found wrong
