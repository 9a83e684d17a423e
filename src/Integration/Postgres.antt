-- ===== src/Integration/Postgres.antt =====
-- integration/postgres/provider.go. The pool of pgx is a record of functions. The tracer that is
-- always set is left out.
use hwhkit_go.Prelude.{
  String, refl, inl, inr, Bool, ◌||◌, Option, none, some, List, [], ◌∷◌, nat_eq, string_eq,
  if◌then◌else◌, Bool-cases, Option-cases, true, not,
}
use hwhkit_go.Prelude.Int.{ℤ, Duration, is_positive}
use hwhkit_go.Prelude.Text.{contains, strip_prefix}
use hwhkit_go.Config.AppConfig.{AppConfig}
use hwhkit_go.Config.Integrations.{
  PostgresConfig, connect_timeout, op_timeout, probe_timeout, shutdown_timeout,
}
use hwhkit_go.Core.CoreError.{
  Result-cases, Error, Kind, unknown, timeout, auth_failed, connect_failed, integration,
  invalid_url, Result, ok, err, error_text, integration_of, integration_msg,
}
use hwhkit_go.Core.Health.{Check}
use hwhkit_go.Integration.World.{
  World, Wakeup, done, timed_out, cancelled, ping_result, track, close, close_waiting, left_pending,
  close_waiting-released_with, publish, find,
}
use hwhkit_go.Integration.Lifecycle.{Lifecycle}
use hwhkit_go.Integration.Connecting.{Settles, early-Settles, closed-Settles, publish-Settles}

abbrev pub key : String
key = "postgres"

abbrev pub handle_type : String
handle_type = "postgres.Handle"

pub record Handle (Pool : Type 0) : Type 0 where
  pub pool : Pool
  pub url : String
  pub handle_max_conns : ℤ
  pub handle_op_timeout : Duration
  pub handle_shutdown_timeout : Duration

abbrev pub State : Type 0 → Type 0
State Pool = World (Handle Pool) Pool

abbrev pub clients : {Pool : Type 0} → Handle Pool → List Pool
clients h = h.pool ∷ []

-- What ParseConfig gives, with the fields that Init sets.
pub record PoolConfig (Parsed : Type 0) : Type 0 where
  pub parsed : Parsed
  pub max_conns : ℤ
  pub pool_connect_timeout : Duration

-- pgx: ParseConfig gives a configuration and its MaxConns, and NewWithConfig and Ping work within a
-- timeout; `wakes` says what ends the wait for Close first.
pub record Library (Parsed Pool : Type 0) : Type 0 where
  pub parse_config : String → Result (Parsed × ℤ)
  pub new_with_config : PoolConfig Parsed → Duration → Result Pool
  pub ping : Pool → Duration → Option Error
  pub wakes : Pool → Duration → Wakeup
  pub is_deadline_exceeded : Error → Bool

unfoldable pub enabled : {F : Type 0} → AppConfig F → Bool
enabled c = c.integrations.sql.postgres.enabled

unfoldable pub required : {F : Type 0} → AppConfig F → Bool
required c = c.integrations.sql.postgres.required

unfoldable pub has_scheme : String → Bool
unfolding strip_prefix
has_scheme url = (strip_prefix "postgres://" url).0 || (strip_prefix "postgresql://" url).0

unfoldable pub make_config : {Parsed : Type 0} → PostgresConfig → Parsed → ℤ → PoolConfig Parsed
make_config pg parsed max_conns = record {
  parsed = parsed;
  max_conns = if is_positive pg.max_connections then pg.max_connections else max_conns;
  pool_connect_timeout = connect_timeout pg.resilience;
}

unfoldable pub make_handle :
    {Parsed Pool : Type 0} → PostgresConfig → PoolConfig Parsed → Pool → Handle Pool
make_handle pg cfg pool = record {
  pool = pool;
  url = pg.url;
  handle_max_conns = cfg.max_conns;
  handle_op_timeout = op_timeout pg.resilience;
  handle_shutdown_timeout = shutdown_timeout pg.resilience;
}

module _ {Parsed Pool : Type 0} (quote to_lower : String → String) (lib : Library Parsed Pool) where
  unfoldable pub classify : Option Error → Kind
  classify none = unknown
  classify (some e) =
      let msg = to_lower (error_text quote e) in
      if lib.is_deadline_exceeded e
      then timeout
      else if contains msg "timeout" || contains msg "deadline"
      then timeout
      else if contains msg "authentication" || contains msg "password"
      then auth_failed
      else if contains msg "connection refused" || contains msg "no such host"
      then connect_failed
      else integration

module _ {Parsed Pool : Type 0} (lib : Library Parsed Pool) where
  -- Close runs in a goroutine of its own, which goes on when the wait ends before it.
  unfoldable pub shutdown : State Pool → State Pool × Option Error
  shutdown w = elim (find handle_type w) [
    | none ↦ (w, none)
    | some h ↦ (
      close_waiting (lib.wakes h.pool h.handle_shutdown_timeout) h.pool w,
      elim (lib.wakes h.pool h.handle_shutdown_timeout) [
        | done ↦ none
        | timed_out ↦ some (integration_msg key timeout "pgx pool close exceeded shutdown_timeout")
        | cancelled ↦ none
      ],
    )
  ]

module _ {Parsed Pool : Type 0} (quote to_lower : String → String) (lib : Library Parsed Pool) where
  -- What follows the test of the URL.
  unfoldable pub connect : State Pool → PostgresConfig → State Pool × Option Error
  unfolding classify make_config make_handle
  connect w pg = elim (lib.parse_config pg.url) [
    | err e ↦ (w, some (integration_of key invalid_url e))
    | ok (parsed, max_conns) ↦
        let cfg = make_config pg parsed max_conns in
        elim (lib.new_with_config cfg (connect_timeout pg.resilience)) [
          | err e ↦ (w, some (integration_of key (classify quote to_lower lib (some e)) e))
          | ok pool ↦ elim (lib.ping pool (op_timeout pg.resilience)) [
            | some e ↦ (
              close pool (track pool w),
              some (integration_of key (classify quote to_lower lib (some e)) e),
            )
            | none ↦ (publish handle_type key (make_handle pg cfg pool) (track pool w), none)
          ]
        ]
  ]

  connect-Settles :
      (w : State Pool) (pg : PostgresConfig) → Settles handle_type key clients w (connect w pg)
  unfolding connect
  connect-Settles w pg = elim (Result-cases (lib.parse_config pg.url)) [
    | inr (e, bad) ↦ rw (bad, connect) (early-Settles handle_type key clients w _)
    | inl ((parsed, max_conns), good) ↦
        let cfg = make_config pg parsed max_conns in
        elim (Result-cases (lib.new_with_config cfg (connect_timeout pg.resilience))) [
          | inr (e, bad) ↦ rw (good, bad, connect) (early-Settles handle_type key clients w _)
          | inl (pool, made) ↦ elim (Option-cases (lib.ping pool (op_timeout pg.resilience))) [
            | inr (e, dead) ↦
                rw (good, made, dead, connect) (closed-Settles handle_type key clients w pool _)
            | inl alive ↦
                rw (good, made, alive, connect)
                  (publish-Settles handle_type key clients w (make_handle pg cfg pool) pool refl)
          ]
        ]
  ]

module _ {F Parsed Pool : Type 0} (quote to_lower : String → String)
    (lib : Library Parsed Pool) where
  unfoldable pub init : State Pool → AppConfig F → State Pool × Option Error
  unfolding connect has_scheme
  init w c =
      let pg = c.integrations.sql.postgres in
      let next = connect quote to_lower lib w pg in
      if not (has_scheme pg.url)
      then (
        w,
        some (
            integration_msg key invalid_url
              "postgres url must start with postgres:// or postgresql://"),
      )
      else next

  unfoldable pub health_check : State Pool → AppConfig F → Option Check
  health_check w c = elim (find handle_type w) [
    | none ↦ none
    | some h ↦ some (record {
      name = key;
      probe =
          ping_result quote
            (lib.ping h.pool (probe_timeout c.integrations.sql.postgres.resilience));
    })
  ]

  pub init-Settles :
      (w : State Pool) (c : AppConfig F) → Settles handle_type key clients w (init w c)
  unfolding init
  init-Settles w c = elim (Bool-cases (has_scheme c.integrations.sql.postgres.url)) [
    | inr other ↦ rw (other) (early-Settles handle_type key clients w _)
    | inl given ↦ rw (given) (connect-Settles quote to_lower lib w c.integrations.sql.postgres)
  ]

  abbrev pub lifecycle : Lifecycle (Handle Pool) Pool (AppConfig F)
  unfolding health_check shutdown
  lifecycle = record {
    t = handle_type;
    key = key;
    clients = clients;
    leaves = λ h. left_pending (lib.wakes h.pool h.handle_shutdown_timeout) h.pool;
    probed = λ h. true;
    init = init;
    health_check = health_check;
    shutdown = shutdown lib;
    init_settles = init-Settles;
    probe_of_handle = λ w c h found. rw (found, health_check) refl;
    no_probe = λ w c missing. rw (missing, health_check) refl;
    shutdown_of_handle = λ w h found.
        rw (found, shutdown)
          (close_waiting-released_with (lib.wakes h.pool h.handle_shutdown_timeout) h.pool w);
    shutdown_of_none = λ w missing. rw (missing, shutdown) refl;
  }
