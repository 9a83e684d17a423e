-- ===== src/Integration/S3.antt =====
-- integration/s3/provider.go. The AWS SDK is a record of functions. Its client has no Close.
use hwhkit_go.Prelude.{
  String, refl, inl, inr, Bool, not, ◌&&◌, Option, none, some, List, [], ◌==◌, nat_eq, string_eq,
  if◌then◌else◌, Bool-cases, Option-cases,
}
use hwhkit_go.Prelude.Int.{Duration}
use hwhkit_go.Config.AppConfig.{AppConfig}
use hwhkit_go.Config.Integrations.{S3Config, op_timeout, probe_timeout}
use hwhkit_go.Core.CoreError.{
  Result-cases, Error, Result, ok, err, integration_of, invalid_config, connect_failed,
}
use hwhkit_go.Core.Health.{Check}
use hwhkit_go.Integration.World.{nothing-released_with, World, ping_result, publish, find}
use hwhkit_go.Integration.Connecting.{early-Settles, publish-alone-Settles, Settles}
use hwhkit_go.Integration.Lifecycle.{Lifecycle}

abbrev pub key : String
key = "s3"

abbrev pub handle_type : String
handle_type = "s3.Handle"

pub record Handle (Client : Type 0) : Type 0 where
  pub client : Client
  pub bucket : String
  pub region : String

-- The static credentials, an access key and a secret key, if both are given.
pub record LoadOptions : Type 0 where
  pub load_region : String
  pub credentials : Option (String × String)

pub record ClientOptions : Type 0 where
  pub base_endpoint : Option String
  pub path_style : Bool

pub record Library (Loaded Client : Type 0) : Type 0 where
  pub load_config : LoadOptions → Result Loaded
  pub new_from_config : Loaded → ClientOptions → Client
  pub head_bucket : Client → String → Duration → Option Error

unfoldable pub enabled : {F : Type 0} → AppConfig F → Bool
enabled c = c.integrations.storage.s3.enabled

unfoldable pub required : {F : Type 0} → AppConfig F → Bool
required c = c.integrations.storage.s3.required

abbrev pub State : Type 0 → Type 0
State Client = World (Handle Client) Client

abbrev pub clients : {Client : Type 0} → Handle Client → List Client
clients h = []

unfoldable pub load_options : S3Config → LoadOptions
load_options sc = record {
  load_region = sc.region;
  credentials =
      if not (sc.access_key == "") && not (sc.secret_key == "")
      then some (sc.access_key, sc.secret_key)
      else none;
}

unfoldable pub client_options : S3Config → ClientOptions
client_options sc = record {
  base_endpoint = if not (sc.endpoint == "") then some sc.endpoint else none;
  path_style = sc.use_path_style;
}

unfoldable pub make_handle : {Client : Type 0} → S3Config → Client → Handle Client
make_handle sc client = record { client = client; bucket = sc.bucket; region = sc.region }

module _ {Client : Type 0} where
  unfoldable pub shutdown : State Client → State Client × Option Error
  shutdown w = (w, none)

module _ {Loaded Client : Type 0} (lib : Library Loaded Client) where
  -- What the HeadBucket of Init says, which is asked only for a configured bucket.
  unfoldable pub probe_bucket : S3Config → Client → Option Error
  probe_bucket sc client =
      if not (sc.bucket == "")
      then lib.head_bucket client sc.bucket (op_timeout sc.resilience)
      else none

module _ {F Loaded Client : Type 0} (quote : String → String) (lib : Library Loaded Client) where
  unfoldable pub init : State Client → AppConfig F → State Client × Option Error
  unfolding load_options client_options make_handle probe_bucket
  init w c =
      let sc = c.integrations.storage.s3 in
      elim (lib.load_config (load_options sc)) [
        | err e ↦ (w, some (integration_of key invalid_config e))
        | ok cfg ↦
            let client = lib.new_from_config cfg (client_options sc) in
            elim (probe_bucket lib sc client) [
              | some e ↦ (w, some (integration_of key connect_failed e))
              | none ↦ (publish handle_type key (make_handle sc client) w, none)
            ]
      ]

  unfoldable pub health_check : State Client → AppConfig F → Option Check
  health_check w c = elim (find handle_type w) [
    | none ↦ none
    | some h ↦
        if h.bucket == ""
        then none
        else some (record {
          name = key;
          probe = ping_result quote (
              lib.head_bucket h.client h.bucket
                (probe_timeout c.integrations.storage.s3.resilience));
        })
  ]

  pub init-Settles :
      (w : State Client) (c : AppConfig F) → Settles handle_type key clients w (init w c)
  unfolding init
  init-Settles w c =
      let sc = c.integrations.storage.s3 in
      elim (Result-cases (lib.load_config (load_options sc))) [
        | inr (e, bad) ↦ rw (bad, init) (early-Settles handle_type key clients w _)
        | inl (cfg, good) ↦
            let client = lib.new_from_config cfg (client_options sc) in
            elim (Option-cases (probe_bucket lib sc client)) [
              | inr (e, dead) ↦ rw (good, dead, init) (early-Settles handle_type key clients w _)
              | inl alive ↦
                  rw (good, alive, init)
                    (publish-alone-Settles handle_type key clients w (make_handle sc client) refl)
            ]
      ]

  abbrev pub lifecycle : Lifecycle (Handle Client) Client (AppConfig F)
  unfolding health_check shutdown
  lifecycle = record {
    t = handle_type;
    key = key;
    clients = clients;
    leaves = λ h. [];
    probed = λ h. not (h.bucket == "");
    init = init;
    health_check = health_check;
    shutdown = shutdown;
    init_settles = init-Settles;
    probe_of_handle = λ w c h found.
        rw (found, health_check)
          (elim (Bool-cases (h.bucket == "")) [ inl e ↦ rw (e) refl | inr e ↦ rw (e) refl ]);
    no_probe = λ w c missing. rw (missing, health_check) refl;
    shutdown_of_handle = λ w h found. nothing-released_with w;
    shutdown_of_none = λ w missing. refl;
  }
