-- ===== src/Integration/Mongodb.antt =====
-- integration/mongodb/provider.go. The driver of MongoDB is a record of functions.
use hwhkit_go.Prelude.{
  String, refl, inl, inr, Bool, true, Option, none, some, List, [], ◌∷◌, ◌==◌, nat_eq, string_eq,
  if◌then◌else◌, Bool-cases, Option-cases,
}
use hwhkit_go.Prelude.Int.{Duration}
use hwhkit_go.Config.AppConfig.{AppConfig}
use hwhkit_go.Config.Integrations.{
  MongodbConfig, connect_timeout, op_timeout, probe_timeout, shutdown_timeout,
}
use hwhkit_go.Core.CoreError.{
  Result-cases, Error, Result, ok, err, integration_of, integration_msg, not_configured,
  connect_failed, integration,
}
use hwhkit_go.Core.Health.{Check}
use hwhkit_go.Integration.World.{
  close-released_with, World, ping_result, track, close, publish, find,
}
use hwhkit_go.Integration.Connecting.{early-Settles, closed-Settles, publish-Settles, Settles}
use hwhkit_go.Integration.Lifecycle.{Lifecycle}

abbrev pub key : String
key = "mongodb"

abbrev pub handle_type : String
handle_type = "mongodb.Handle"

pub record Handle (Client : Type 0) : Type 0 where
  pub client : Client
  pub database : String
  pub handle_shutdown_timeout : Duration

-- The options that Init sets.
pub record ClientOptions : Type 0 where
  pub uri : String
  pub connect : Duration
  pub server_selection : Duration

-- Connect within a timeout, Ping within a timeout, and Disconnect.
pub record Library (Client : Type 0) : Type 0 where
  pub connect_client : ClientOptions → Duration → Result Client
  pub ping : Client → Duration → Option Error
  pub disconnect : Client → Duration → Option Error

unfoldable pub enabled : {F : Type 0} → AppConfig F → Bool
enabled c = c.integrations.mongodb.enabled

unfoldable pub required : {F : Type 0} → AppConfig F → Bool
required c = c.integrations.mongodb.required

abbrev pub State : Type 0 → Type 0
State Client = World (Handle Client) Client

abbrev pub clients : {Client : Type 0} → Handle Client → List Client
clients h = h.client ∷ []

unfoldable pub make_options : MongodbConfig → ClientOptions
make_options mc = record {
  uri = mc.uri;
  connect = connect_timeout mc.resilience;
  server_selection = connect_timeout mc.resilience;
}

unfoldable pub make_handle : {Client : Type 0} → MongodbConfig → Client → Handle Client
make_handle mc client = record {
  client = client;
  database = mc.database;
  handle_shutdown_timeout = shutdown_timeout mc.resilience;
}

module _ {Client : Type 0} (lib : Library Client) where
  unfoldable pub shutdown : State Client → State Client × Option Error
  shutdown w = elim (find handle_type w) [
    | none ↦ (w, none)
    | some h ↦ (
      close h.client w,
      elim (lib.disconnect h.client h.handle_shutdown_timeout) [
        | some e ↦ some (integration_of key integration e)
        | none ↦ none
      ],
    )
  ]

module _ {F Client : Type 0} (quote : String → String) (lib : Library Client) where
  unfoldable pub init : State Client → AppConfig F → State Client × Option Error
  unfolding make_options make_handle
  init w c =
      let mc = c.integrations.mongodb in
      if mc.uri == ""
      then (w, some (integration_msg key not_configured "mongodb uri is empty"))
      else elim (lib.connect_client (make_options mc) (connect_timeout mc.resilience)) [
        | err e ↦ (w, some (integration_of key connect_failed e))
        | ok client ↦ elim (lib.ping client (op_timeout mc.resilience)) [
          | some e ↦ (close client (track client w), some (integration_of key connect_failed e))
          | none ↦ (publish handle_type key (make_handle mc client) (track client w), none)
        ]
      ]

  unfoldable pub health_check : State Client → AppConfig F → Option Check
  health_check w c = elim (find handle_type w) [
    | none ↦ none
    | some h ↦ some (record {
      name = key;
      probe =
          ping_result quote (lib.ping h.client (probe_timeout c.integrations.mongodb.resilience));
    })
  ]

  pub init-Settles :
      (w : State Client) (c : AppConfig F) → Settles handle_type key clients w (init w c)
  unfolding init
  init-Settles w c =
      let mc = c.integrations.mongodb in
      elim (Bool-cases (mc.uri == "")) [
        | inl empty ↦ rw (empty) (early-Settles handle_type key clients w _)
        | inr given ↦
            elim (Result-cases
              (lib.connect_client (make_options mc) (connect_timeout mc.resilience))) [
                | inr (e, bad) ↦ rw (given, bad) (early-Settles handle_type key clients w _)
                | inl (client, good) ↦
                    elim (Option-cases (lib.ping client (op_timeout mc.resilience))) [
                      | inr (e, dead) ↦
                          rw (given, good, dead) (closed-Settles handle_type key clients w client _)
                      | inl alive ↦
                          rw (given, good, alive)
                            (publish-Settles handle_type key clients w (make_handle mc client)
                              client refl)
                    ]
              ]
      ]

  abbrev pub lifecycle : Lifecycle (Handle Client) Client (AppConfig F)
  unfolding health_check shutdown
  lifecycle = record {
    t = handle_type;
    key = key;
    clients = clients;
    leaves = λ h. [];
    probed = λ h. true;
    init = init;
    health_check = health_check;
    shutdown = shutdown lib;
    init_settles = init-Settles;
    probe_of_handle = λ w c h found. rw (found, health_check) refl;
    no_probe = λ w c missing. rw (missing, health_check) refl;
    shutdown_of_handle = λ w h found. rw (found, shutdown) (close-released_with h.client w);
    shutdown_of_none = λ w missing. rw (missing, shutdown) refl;
  }
