-- ===== src/Lib.antt =====
-- Verification of hwhkit-go, a service kit for Go: a bootstrap that loads a configuration and
-- starts integrations, a production server with its middleware, and packages that a service mounts
-- itself.
--
-- How the parts interact. core/bootstrap.go takes the configuration from a loader, compares it
-- with the features that the program was built with, starts the enabled integration providers one
-- by one in a shared application context, and asks the application for its router. The result is
-- given to hwhkit/production, which puts the middleware and the health endpoints in front of the
-- router, serves until a signal, and then stops server and providers. The idempotency and rate
-- limit packages are middleware over Redis, and the tenant and jwt packages put a tenant and the
-- claims of a verified token into the context. The language model integration is one of the
-- providers.
--
-- Which file models which part:
--   Prelude      lists, Go's integers and durations, maps with string keys, strings, sorting
--   Http         header maps, requests, the calls on a ResponseWriter and the response they make
--   Config       config/appconfig.go (AppConfig, Integrations, Durations), config/bootstrap.go
--                (Bootstrap) and config/loader.go (Loader)
--   Core         core/coreerror (CoreError), core/apierror (ApiError), core/runtime (Features),
--                core/health (Health), core/appctx (AppContext), core/shutdown (Shutdown) and
--                core/bootstrap.go, built.go and provider.go (Bootstrap)
--   Middleware   hwhkit/middleware: requestid.go, recover.go, accesslog.go with metrics.go, cors.go,
--                and bodylimit.go, timeout.go and compress.go (Limits)
--   Production   hwhkit/production: server.go (Serve, and Chain for the middleware
--                before the routes) and endpoints.go (Endpoints)
--   Facade       hwhkit/bootstrap.go: the options of Run, and RunAndServe; Service has a run from the
--                start to the exit, and Release the clients of an integration in such a run
--   Demo         examples/minimal (Minimal) and examples/full-stack (FullStack)
--   Integration  integration/redis, postgres, mongodb, nats, neo4j, qdrant, s3 and oss, a module
--                each, postgres/migrations.go (Migrations) and scheduler/scheduler.go (Scheduler).
--                World is the state that they work on, Lifecycle the interface that they fill;
--                Embedded makes a provider of the bootstrap of one, Hosted has it among others
--   Idempotency  idempotency/middleware.go; Interleaving has requests at the same time
--   RateLimit    ratelimit/middleware.go; Script has the Lua script of the token bucket
--   Llm          integration/llm: types.go and error.go (Types), backend.go (Models), handle.go
--                (Handle), openai_compat.go (OpenAiCompat), anthropic.go (Anthropic), provider.go
--                (Provider)
--   Jwt          jwt/verifier.go and jwt/middleware.go; Keys has the verifiers
--   Tenant       tenant/tenant.go; Interleaving has calls of Get at the same time
--   CircuitBreaker  circuitbreaker/transport.go
--   Observability   observability/logging.go, otel.go and instrument/http.go; Metrics has metrics.go
--   ApiResponse     apiresponse/apiresponse.go
--   BuildInfo       buildinfo/buildinfo.go
--   Cmd          cmd/hwhkit: migrate.go (Migrate), dev.go with main.go (Dev), init.go (Scaffold);
--                Commands has the commands with their flags
--   Examples     the theorems at concrete inputs
--
-- How the code is read. A struct is a record and a function of the source is a function of the
-- same name. A handler is a function from the request to the calls that it makes on the writer and
-- whether it panics; middleware is a function from handlers to handlers. Code that changes a
-- shared object passes the object on. An error return is a result or an option. Go's int and int64
-- are mathematical integers, and where the code computes with them in a way that can overflow the
-- wrap-around is written out. Goroutines appear as an order in which they end (Health) or as steps
-- of a relation (Idempotency.Interleaving, Tenant.Interleaving).
--
-- Code outside the repository is a parameter: the Redis client, encoding/json, the HTTP client,
-- bufio.Scanner, jwt.Parse, koanf, the validator, the file system, the client library of each
-- integration, River, golang-migrate, gobreaker, docker, strings.ToUpper, fmt's
-- %q, the environment, uuid, chi, cobra and Prometheus.
-- Of Redis the theorems assume that its commands answer and that no key expires while they run,
-- except in RateLimit.Script and Idempotency.Interleaving, where the expiry of keys is modelled. A character of a string stands
-- for a byte where positions in the string matter.
--
-- An integration's state is the context, the Handles that it has made and the clients that it has
-- opened and released, with those whose Close was still to end; a library's answers are functions of its arguments. The bootstrap and Serve
-- pass on the state that the providers act on, a type that is a parameter: the context alone, or
-- the context with the parts of several integrations (Demo.FullStack). BuildRouter may change it as
-- an Init may, and so may both cancel the shutdown token in it; checks that a provider registers by
-- itself in the health registry are left out, and Serve cancels the token as the bootstrap left it.
--
-- No definition runs on fuel: loops are by recursion on their list, and the loop of itoa by
-- recursion on the room that is left in its buffer of 20 bytes.
--
-- Not modelled: prelude.go, which only names other packages; what cobra makes of the arguments;
-- the embedded default.toml and the project templates, which are data; log lines, durations in
-- logs, contexts and their deadlines; the rounding of doubles in the Lua script, and limits, windows
-- and bursts that are not positive there.
pub mod CircuitBreaker
pub mod ApiResponse
pub mod BuildInfo
pub mod Cmd
pub mod Observability
pub mod Prelude
pub mod Config
pub mod Demo
pub mod Facade
pub mod Http
pub mod Integration
pub mod Core
pub mod Middleware
pub mod Production
pub mod Idempotency
pub mod RateLimit
pub mod Llm
pub mod Tenant
pub mod Jwt
pub mod Examples
