-- ===== src/Integration/Nats.antt =====
-- integration/nats/provider.go. The NATS client is a record of functions.
use hwhkit_go.Prelude.{
  String, refl, inl, inr, Bool, true, not, Option, none, some, List, [], ◌∷◌, ◌==◌, nat_eq,
  string_eq, if◌then◌else◌, Bool-cases, Option-cases,
}
use hwhkit_go.Prelude.Int.{Duration, pos}
use hwhkit_go.Config.AppConfig.{AppConfig}
use hwhkit_go.Config.Integrations.{NatsConfig, connect_timeout, shutdown_timeout}
use hwhkit_go.Core.CoreError.{
  Result-cases, Error, Result, ok, err, integration_of, integration_msg, not_configured,
  connect_failed, integration,
}
use hwhkit_go.Core.Health.{Check, CheckResult, unhealthy}
use hwhkit_go.Integration.World.{
  World, ping_result, track, close, let_go, close-released_with, publish, find,
}
use hwhkit_go.Integration.Connecting.{early-Settles, closed-Settles, publish-Settles, Settles}
use hwhkit_go.Integration.Lifecycle.{Lifecycle}

abbrev pub key : String
key = "nats"

abbrev pub handle_type : String
handle_type = "nats.Handle"

-- `js` is nil unless JetStream is configured.
pub record Handle (Conn JetStream : Type 0) : Type 0 where
  pub conn : Conn
  pub js : Option JetStream
  pub handle_shutdown_timeout : Duration

pub record Library (Conn JetStream : Type 0) : Type 0 where
  pub connect : String → Duration → Result Conn
  pub new_jetstream : Conn → Result JetStream
  pub is_connected : Conn → Bool
  pub rtt : Conn → Option Error
  pub drain : Conn → Option Error

unfoldable pub enabled : {F : Type 0} → AppConfig F → Bool
enabled c = c.integrations.messaging.nats.enabled

unfoldable pub required : {F : Type 0} → AppConfig F → Bool
required c = c.integrations.messaging.nats.required

abbrev pub State : Type 0 → Type 0 → Type 0
State Conn JetStream = World (Handle Conn JetStream) Conn

abbrev pub clients : {Conn JetStream : Type 0} → Handle Conn JetStream → List Conn
clients h = h.conn ∷ []

unfoldable pub make_handle :
    {Conn JetStream : Type 0} → NatsConfig → Conn → Option JetStream → Handle Conn JetStream
make_handle nc conn js = record {
  conn = conn;
  js = js;
  handle_shutdown_timeout = shutdown_timeout nc.resilience;
}

module _ {Conn JetStream : Type 0} (lib : Library Conn JetStream) where
  -- A Drain without an error goes on after it has returned, and closes the connection at its end.
  unfoldable pub shutdown : State Conn JetStream → State Conn JetStream × Option Error
  shutdown w = elim (find handle_type w) [
    | none ↦ (w, none)
    | some h ↦ elim (lib.drain h.conn) [
      | some e ↦ (close h.conn w, none)
      | none ↦ (let_go h.conn w, none)
    ]
  ]

module _ {Conn JetStream : Type 0} (quote : String → String) (lib : Library Conn JetStream) where
  unfoldable pub probe_conn : Conn → CheckResult
  probe_conn conn =
      if not (lib.is_connected conn)
      then record { name = ""; status = unhealthy; detail = "not connected"; latency = pos 0 }
      else ping_result quote (lib.rtt conn)

module _ {F Conn JetStream : Type 0} (quote : String → String) (lib : Library Conn JetStream) where
  unfoldable pub init : State Conn JetStream → AppConfig F → State Conn JetStream × Option Error
  unfolding make_handle
  init w c =
      let nc = c.integrations.messaging.nats in
      if nc.url == ""
      then (w, some (integration_msg key not_configured "nats url is empty"))
      else elim (lib.connect nc.url (connect_timeout nc.resilience)) [
        | err e ↦ (w, some (integration_of key connect_failed e))
        | ok conn ↦
            if nc.jetstream
            then elim (lib.new_jetstream conn) [
              | err e ↦ (close conn (track conn w), some (integration_of key integration e))
              | ok js ↦
                  (publish handle_type key (make_handle nc conn (some js)) (track conn w), none)
            ]
            else (publish handle_type key (make_handle nc conn none) (track conn w), none)
      ]

  unfoldable pub health_check : State Conn JetStream → AppConfig F → Option Check
  unfolding probe_conn
  health_check w c = elim (find handle_type w) [
    | none ↦ none
    | some h ↦ some (record { name = key; probe = probe_conn quote lib h.conn })
  ]

  pub init-Settles :
      (w : State Conn JetStream) (c : AppConfig F) → Settles handle_type key clients w (init w c)
  unfolding init
  init-Settles w c =
      let nc = c.integrations.messaging.nats in
      elim (Bool-cases (nc.url == "")) [
        | inl empty ↦ rw (empty) (early-Settles handle_type key clients w _)
        | inr given ↦ elim (Result-cases (lib.connect nc.url (connect_timeout nc.resilience))) [
          | inr (e, bad) ↦ rw (given, bad) (early-Settles handle_type key clients w _)
          | inl (conn, good) ↦ elim (Bool-cases nc.jetstream) [
            | inr off ↦
                rw (given, good, off)
                  (publish-Settles handle_type key clients w (make_handle nc conn none) conn refl)
            | inl on ↦ elim (Result-cases (lib.new_jetstream conn)) [
              | inr (e, bad) ↦
                  rw (given, good, on, bad) (closed-Settles handle_type key clients w conn _)
              | inl (js, made) ↦
                  rw (given, good, on, made)
                    (publish-Settles handle_type key clients w (make_handle nc conn (some js)) conn
                      refl)
            ]
          ]
        ]
      ]

  abbrev pub lifecycle : Lifecycle (Handle Conn JetStream) Conn (AppConfig F)
  unfolding health_check shutdown
  lifecycle = record {
    t = handle_type;
    key = key;
    clients = clients;
    leaves = λ h. elim (lib.drain h.conn) [ some e ↦ [] | none ↦ h.conn ∷ [] ];
    probed = λ h. true;
    init = init;
    health_check = health_check;
    shutdown = shutdown lib;
    init_settles = init-Settles;
    probe_of_handle = λ w c h found. rw (found, health_check) refl;
    no_probe = λ w c missing. rw (missing, health_check) refl;
    shutdown_of_handle = λ w h found.
        rw (found, shutdown)
          (elim (Option-cases (lib.drain h.conn)) [
            | inl sent ↦ rw (sent) refl
            | inr (e, bad) ↦ rw (bad) (close-released_with h.conn w)
          ]);
    shutdown_of_none = λ w missing. rw (missing, shutdown) refl;
  }
