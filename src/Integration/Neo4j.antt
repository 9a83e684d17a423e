-- ===== src/Integration/Neo4j.antt =====
-- integration/neo4j/provider.go. The Neo4j driver is a record of functions.
use hwhkit_go.Prelude.{
  String, refl, inl, inr, Bool, true, Option, none, some, List, [], ◌∷◌, ◌==◌, nat_eq, string_eq,
  if◌then◌else◌, Bool-cases, Option-cases,
}
use hwhkit_go.Prelude.Int.{Duration}
use hwhkit_go.Config.AppConfig.{AppConfig}
use hwhkit_go.Config.Integrations.{op_timeout, probe_timeout}
use hwhkit_go.Core.CoreError.{
  Result-cases, Error, Result, ok, err, integration_of, integration_msg, not_configured,
  connect_failed,
}
use hwhkit_go.Core.Health.{Check}
use hwhkit_go.Integration.World.{
  close-released_with, World, ping_result, track, close, publish_twice, find,
}
use hwhkit_go.Integration.Connecting.{early-Settles, closed-Settles, publish_twice-Settles, Settles}
use hwhkit_go.Integration.Lifecycle.{Lifecycle}

abbrev pub key : String
key = "neo4j"

abbrev pub handle_type : String
handle_type = "neo4j.Handle"

pub record Handle (Client : Type 0) : Type 0 where
  pub driver : Client

-- `new_driver` of a URI, a user and a password.
pub record Library (Client : Type 0) : Type 0 where
  pub new_driver : String → String → String → Result Client
  pub verify_connectivity : Client → Duration → Option Error
  pub close_driver : Client → Option Error

unfoldable pub enabled : {F : Type 0} → AppConfig F → Bool
enabled c = c.integrations.neo4j.enabled

unfoldable pub required : {F : Type 0} → AppConfig F → Bool
required c = c.integrations.neo4j.required

abbrev pub State : Type 0 → Type 0
State Client = World (Handle Client) Client

abbrev pub clients : {Client : Type 0} → Handle Client → List Client
clients h = h.driver ∷ []

module _ {Client : Type 0} (lib : Library Client) where
  unfoldable pub shutdown : State Client → State Client × Option Error
  shutdown w = elim (find handle_type w) [
    | none ↦ (w, none)
    | some h ↦ (close h.driver w, lib.close_driver h.driver)
  ]

module _ {F Client : Type 0} (quote : String → String) (lib : Library Client) where
  unfoldable pub init : State Client → AppConfig F → State Client × Option Error
  init w c =
      let nc = c.integrations.neo4j in
      if nc.uri == ""
      then (w, some (integration_msg key not_configured "neo4j uri is empty"))
      else elim (lib.new_driver nc.uri nc.username nc.password) [
        | err e ↦ (w, some (integration_of key connect_failed e))
        | ok driver ↦ elim (lib.verify_connectivity driver (op_timeout nc.resilience)) [
          | some e ↦ (close driver (track driver w), some (integration_of key connect_failed e))
          | none ↦
              (publish_twice handle_type key (record { driver = driver }) (track driver w), none)
        ]
      ]

  unfoldable pub health_check : State Client → AppConfig F → Option Check
  health_check w c = elim (find handle_type w) [
    | none ↦ none
    | some h ↦ some (record {
      name = key;
      probe =
          ping_result quote
            (lib.verify_connectivity h.driver (probe_timeout c.integrations.neo4j.resilience));
    })
  ]

  pub init-Settles :
      (w : State Client) (c : AppConfig F) → Settles handle_type key clients w (init w c)
  unfolding init
  init-Settles w c =
      let nc = c.integrations.neo4j in
      elim (Bool-cases (nc.uri == "")) [
        | inl empty ↦ rw (empty) (early-Settles handle_type key clients w _)
        | inr given ↦ elim (Result-cases (lib.new_driver nc.uri nc.username nc.password)) [
          | inr (e, bad) ↦ rw (given, bad) (early-Settles handle_type key clients w _)
          | inl (driver, good) ↦
              elim (Option-cases (lib.verify_connectivity driver (op_timeout nc.resilience))) [
                | inr (e, dead) ↦
                    rw (given, good, dead) (closed-Settles handle_type key clients w driver _)
                | inl alive ↦
                    rw (given, good, alive)
                      (publish_twice-Settles handle_type key clients w (record { driver = driver })
                        driver refl)
              ]
        ]
      ]

  abbrev pub lifecycle : Lifecycle (Handle Client) Client (AppConfig F)
  unfolding health_check shutdown
  lifecycle = record {
    t = handle_type;
    key = key;
    clients = clients;
    leaves = λ h. [];
    probed = λ h. true;
    init = init;
    health_check = health_check;
    shutdown = shutdown lib;
    init_settles = init-Settles;
    probe_of_handle = λ w c h found. rw (found, health_check) refl;
    no_probe = λ w c missing. rw (missing, health_check) refl;
    shutdown_of_handle = λ w h found. rw (found, shutdown) (close-released_with h.driver w);
    shutdown_of_none = λ w missing. rw (missing, shutdown) refl;
  }
