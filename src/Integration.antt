-- ===== src/Integration.antt =====
-- The packages under integration/ that connect to a service, and the scheduler. The client library
-- of each service is a record of functions, a parameter.
pub mod World
pub mod Connecting
pub mod Lifecycle
pub mod Redis
pub mod Mongodb
pub mod Nats
pub mod Neo4j
pub mod Qdrant
pub mod S3
pub mod Oss
pub mod Postgres
pub mod Scheduler
pub mod Migrations
pub mod Guarantees
pub mod Hosted
pub mod Embedded
