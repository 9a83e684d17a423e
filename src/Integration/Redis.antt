-- ===== src/Integration/Redis.antt =====
-- integration/redis/provider.go. The library go-redis is a record of functions, and the tracing and
-- metrics that it is asked for, whose errors are dropped, are left out.
use hwhkit_go.Prelude.{
  String, refl, inl, inr, Bool, ◌||◌, Option, none, some, List, [], ◌∷◌, ◌==◌, nat_eq, string_eq,
  if◌then◌else◌, Bool-cases, Option-cases, true,
}
use hwhkit_go.Prelude.Int.{ℤ, Duration, is_positive}
use hwhkit_go.Prelude.Text.{contains}
use hwhkit_go.Config.AppConfig.{AppConfig}
use hwhkit_go.Config.Integrations.{
  RedisConfig, connect_timeout, op_timeout, probe_timeout, shutdown_timeout,
}
use hwhkit_go.Core.CoreError.{
  Result-cases, Error, Kind, unknown, timeout, auth_failed, connect_failed, integration,
  invalid_url, not_configured, Result, ok, err, error_text, integration_of, integration_msg,
}
use hwhkit_go.Core.Health.{Check}
use hwhkit_go.Integration.World.{
  World, Wakeup, done, timed_out, cancelled, ping_result, track, close, close_waiting, left_pending,
  close_waiting-released_with, publish, find,
}
use hwhkit_go.Integration.Lifecycle.{Lifecycle}
use hwhkit_go.Integration.Connecting.{Settles, early-Settles, closed-Settles, publish-Settles}

abbrev pub key : String
key = "redis"

abbrev pub handle_type : String
handle_type = "redis.Handle"

pub record Handle (Client : Type 0) : Type 0 where
  pub client : Client
  pub url : String
  pub handle_op_timeout : Duration
  pub handle_shutdown_timeout : Duration

abbrev pub State : Type 0 → Type 0
State Client = World (Handle Client) Client

-- The clients that a Handle keeps.
abbrev pub clients : {Client : Type 0} → Handle Client → List Client
clients h = h.client ∷ []

-- The options that ParseURL gives, and the fields that Init sets.
pub record Options (Parsed : Type 0) : Type 0 where
  pub parsed : Parsed
  pub pool_size : Option ℤ
  pub dial_timeout : Duration
  pub read_timeout : Duration
  pub write_timeout : Duration

-- go-redis: `ping` is Ping within a timeout, `wakes` what ends the wait for Close first, where the
-- duration is that of the timer.
pub record Library (Parsed Client : Type 0) : Type 0 where
  pub parse_url : String → Result Parsed
  pub new_client : Options Parsed → Client
  pub ping : Client → Duration → Option Error
  pub wakes : Client → Duration → Wakeup

unfoldable pub enabled : {F : Type 0} → AppConfig F → Bool
enabled c = c.integrations.redis.enabled

unfoldable pub required : {F : Type 0} → AppConfig F → Bool
required c = c.integrations.redis.required

unfoldable pub make_options : {Parsed : Type 0} → RedisConfig → Parsed → Options Parsed
make_options rc parsed = record {
  parsed = parsed;
  pool_size = if is_positive rc.pool_size then some rc.pool_size else none;
  dial_timeout = connect_timeout rc.resilience;
  read_timeout = op_timeout rc.resilience;
  write_timeout = op_timeout rc.resilience;
}

unfoldable pub make_handle : {Client : Type 0} → RedisConfig → Client → Handle Client
make_handle rc client = record {
  client = client;
  url = rc.url;
  handle_op_timeout = op_timeout rc.resilience;
  handle_shutdown_timeout = shutdown_timeout rc.resilience;
}

module _ (quote to_lower : String → String) where
  unfoldable pub classify : Option Error → Kind
  classify none = unknown
  classify (some e) =
      let msg = to_lower (error_text quote e) in
      if contains msg "timeout" || contains msg "deadline"
      then timeout
      else if contains msg "auth" || contains msg "password"
      then auth_failed
      else if contains msg "refused" || contains msg "no such host"
      then connect_failed
      else integration

module _ {F Parsed Client : Type 0} (quote to_lower : String → String)
    (lib : Library Parsed Client) where
  unfoldable pub init : State Client → AppConfig F → State Client × Option Error
  unfolding classify make_options make_handle
  init w c =
      let rc = c.integrations.redis in
      if rc.url == ""
      then (w, some (integration_msg key not_configured "redis url is empty"))
      else elim (lib.parse_url rc.url) [
        | err e ↦ (w, some (integration_of key invalid_url e))
        | ok parsed ↦
            let client = lib.new_client (make_options rc parsed) in
            elim (lib.ping client (op_timeout rc.resilience)) [
              | some e ↦ (
                close client (track client w),
                some (integration_of key (classify quote to_lower (some e)) e),
              )
              | none ↦ (publish handle_type key (make_handle rc client) (track client w), none)
            ]
      ]

  unfoldable pub health_check : State Client → AppConfig F → Option Check
  health_check w c = elim (find handle_type w) [
    | none ↦ none
    | some h ↦ some (record {
      name = key;
      probe = ping_result quote (lib.ping h.client (probe_timeout c.integrations.redis.resilience));
    })
  ]

module _ {Parsed Client : Type 0} (lib : Library Parsed Client) where
  -- Close runs in a goroutine of its own, which goes on when the wait ends before it.
  unfoldable pub shutdown : State Client → State Client × Option Error
  shutdown w = elim (find handle_type w) [
    | none ↦ (w, none)
    | some h ↦ (
      close_waiting (lib.wakes h.client h.handle_shutdown_timeout) h.client w,
      elim (lib.wakes h.client h.handle_shutdown_timeout) [
        | done ↦ none
        | timed_out ↦
            some (integration_msg key timeout "redis client close exceeded shutdown_timeout")
        | cancelled ↦ none
      ],
    )
  ]

module _ {F Parsed Client : Type 0} (quote to_lower : String → String)
    (lib : Library Parsed Client) where
  pub init-Settles :
      (w : State Client) (c : AppConfig F)
      → Settles handle_type key clients w (init quote to_lower lib w c)
  unfolding init
  init-Settles w c =
      let rc = c.integrations.redis in
      elim (Bool-cases (rc.url == "")) [
        | inl empty ↦ rw (empty) (early-Settles handle_type key clients w _)
        | inr given ↦ elim (Result-cases (lib.parse_url rc.url)) [
          | inr (e, bad) ↦ rw (given, bad) (early-Settles handle_type key clients w _)
          | inl (parsed, good) ↦
              let client = lib.new_client (make_options rc parsed) in
              elim (Option-cases (lib.ping client (op_timeout rc.resilience))) [
                | inr (e, dead) ↦
                    rw (given, good, dead) (closed-Settles handle_type key clients w client _)
                | inl alive ↦
                    rw (given, good, alive)
                      (publish-Settles handle_type key clients w (make_handle rc client) client
                        refl)
              ]
        ]
      ]

  abbrev pub lifecycle : Lifecycle (Handle Client) Client (AppConfig F)
  unfolding health_check shutdown
  lifecycle = record {
    t = handle_type;
    key = key;
    clients = clients;
    leaves = λ h. left_pending (lib.wakes h.client h.handle_shutdown_timeout) h.client;
    probed = λ h. true;
    init = init quote to_lower lib;
    health_check = health_check quote to_lower lib;
    shutdown = shutdown lib;
    init_settles = init-Settles;
    probe_of_handle = λ w c h found. rw (found, health_check) refl;
    no_probe = λ w c missing. rw (missing, health_check) refl;
    shutdown_of_handle = λ w h found.
        rw (found, shutdown)
          (close_waiting-released_with (lib.wakes h.client h.handle_shutdown_timeout) h.client w);
    shutdown_of_none = λ w missing. rw (missing, shutdown) refl;
  }
