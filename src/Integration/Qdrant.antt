-- ===== src/Integration/Qdrant.antt =====
-- integration/qdrant/provider.go. The Qdrant client is a record of functions.
use hwhkit_go.Prelude.{
  String, refl, inl, inr, Bool, true, Option, none, some, List, [], ◌∷◌, nat_eq, string_eq,
  Option-cases,
}
use hwhkit_go.Prelude.Int.{ℤ, Duration}
use hwhkit_go.Config.AppConfig.{AppConfig}
use hwhkit_go.Config.Integrations.{op_timeout, probe_timeout}
use hwhkit_go.Core.CoreError.{Result-cases, Error, Result, ok, err, integration_of, connect_failed}
use hwhkit_go.Core.Health.{Check}
use hwhkit_go.Integration.World.{
  close-released_with, World, ping_result, track, close, publish_twice, find,
}
use hwhkit_go.Integration.Connecting.{early-Settles, closed-Settles, publish_twice-Settles, Settles}
use hwhkit_go.Integration.Lifecycle.{Lifecycle}

abbrev pub key : String
key = "qdrant"

abbrev pub handle_type : String
handle_type = "qdrant.Handle"

pub record Handle (Client : Type 0) : Type 0 where
  pub client : Client

-- `new_client` of a host, a port, an API key and whether TLS is used.
pub record Library (Client : Type 0) : Type 0 where
  pub new_client : String → ℤ → String → Bool → Result Client
  pub ask_health : Client → Duration → Option Error
  pub close_client : Client → Option Error

unfoldable pub enabled : {F : Type 0} → AppConfig F → Bool
enabled c = c.integrations.vector.qdrant.enabled

unfoldable pub required : {F : Type 0} → AppConfig F → Bool
required c = c.integrations.vector.qdrant.required

abbrev pub State : Type 0 → Type 0
State Client = World (Handle Client) Client

abbrev pub clients : {Client : Type 0} → Handle Client → List Client
clients h = h.client ∷ []

module _ {Client : Type 0} (lib : Library Client) where
  unfoldable pub shutdown : State Client → State Client × Option Error
  shutdown w = elim (find handle_type w) [
    | none ↦ (w, none)
    | some h ↦ (close h.client w, lib.close_client h.client)
  ]

module _ {F Client : Type 0} (quote : String → String) (lib : Library Client) where
  unfoldable pub init : State Client → AppConfig F → State Client × Option Error
  init w c =
      let qc = c.integrations.vector.qdrant in
      elim (lib.new_client qc.host qc.port qc.api_key qc.use_tls) [
        | err e ↦ (w, some (integration_of key connect_failed e))
        | ok client ↦ elim (lib.ask_health client (op_timeout qc.resilience)) [
          | some e ↦ (close client (track client w), some (integration_of key connect_failed e))
          | none ↦
              (publish_twice handle_type key (record { client = client }) (track client w), none)
        ]
      ]

  unfoldable pub health_check : State Client → AppConfig F → Option Check
  health_check w c = elim (find handle_type w) [
    | none ↦ none
    | some h ↦ some (record {
      name = key;
      probe =
          ping_result quote
            (lib.ask_health h.client (probe_timeout c.integrations.vector.qdrant.resilience));
    })
  ]

  pub init-Settles :
      (w : State Client) (c : AppConfig F) → Settles handle_type key clients w (init w c)
  unfolding init
  init-Settles w c =
      let qc = c.integrations.vector.qdrant in
      elim (Result-cases (lib.new_client qc.host qc.port qc.api_key qc.use_tls)) [
        | inr (e, bad) ↦ rw (bad, init) (early-Settles handle_type key clients w _)
        | inl (client, good) ↦
            elim (Option-cases (lib.ask_health client (op_timeout qc.resilience))) [
              | inr (e, dead) ↦
                  rw (good, dead, init) (closed-Settles handle_type key clients w client _)
              | inl alive ↦
                  rw (good, alive, init)
                    (publish_twice-Settles handle_type key clients w (record { client = client })
                      client refl)
            ]
      ]

  abbrev pub lifecycle : Lifecycle (Handle Client) Client (AppConfig F)
  unfolding health_check shutdown
  lifecycle = record {
    t = handle_type;
    key = key;
    clients = clients;
    leaves = λ h. [];
    probed = λ h. true;
    init = init;
    health_check = health_check;
    shutdown = shutdown lib;
    init_settles = init-Settles;
    probe_of_handle = λ w c h found. rw (found, health_check) refl;
    no_probe = λ w c missing. rw (missing, health_check) refl;
    shutdown_of_handle = λ w h found. rw (found, shutdown) (close-released_with h.client w);
    shutdown_of_none = λ w missing. rw (missing, shutdown) refl;
  }
