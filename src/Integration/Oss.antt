-- ===== src/Integration/Oss.antt =====
-- integration/oss/provider.go. The OSS client is a record of functions; it has no Close.
use hwhkit_go.Prelude.{
  ◌*◌, String, refl, inl, inr, Bool, not, ◌||◌, Option, none, some, List, [], ◌==◌, nat_eq,
  string_eq, if◌then◌else◌, Bool-cases, Option-cases,
}
use hwhkit_go.Prelude.Int.{ℤ, Duration, pos, second}
use hwhkit_go.Config.AppConfig.{AppConfig}
use hwhkit_go.Config.Integrations.{OssConfig, connect_timeout, op_timeout}
use hwhkit_go.Core.CoreError.{
  Result-cases, Error, Result, ok, err, integration_of, integration_msg, not_configured,
  connect_failed,
}
use hwhkit_go.Core.Health.{Check, CheckResult, unhealthy}
use hwhkit_go.Integration.World.{nothing-released_with, World, ping_result, publish_twice, find}
use hwhkit_go.Integration.Connecting.{early-Settles, publish_twice-alone-Settles, Settles}
use hwhkit_go.Integration.Lifecycle.{Lifecycle}
use hwhkit_go.Core.Bootstrap.{base_shutdown}

abbrev pub key : String
key = "oss"

abbrev pub handle_type : String
handle_type = "oss.Handle"

pub record Handle (Client : Type 0) : Type 0 where
  pub client : Client
  pub bucket : String

-- What ends the select of the probe: the goroutine's answer, the context, or the timer.
pub data Answer : Type 0 where
  bucket_info : Option Error → Answer
  context_done timer : Answer

-- `new_client` of an endpoint, the two keys and two timeouts in seconds; `ask` waits for
-- GetBucketInfo at most for a time; `seconds` is `int64(d.Seconds())`, in floating point.
pub record Library (Client : Type 0) : Type 0 where
  pub new_client : String → String → String → ℤ → ℤ → Result Client
  pub seconds : Duration → ℤ
  pub get_bucket_info : Client → String → Option Error
  pub ask : Client → String → Duration → Answer

unfoldable pub enabled : {F : Type 0} → AppConfig F → Bool
enabled c = c.integrations.oss.enabled

unfoldable pub required : {F : Type 0} → AppConfig F → Bool
required c = c.integrations.oss.required

abbrev pub State : Type 0 → Type 0
State Client = World (Handle Client) Client

abbrev pub clients : {Client : Type 0} → Handle Client → List Client
clients h = []

unfoldable pub make_handle : {Client : Type 0} → OssConfig → Client → Handle Client
make_handle oc client = record { client = client; bucket = oc.bucket }

unfoldable pub probe_result : (String → String) → Answer → CheckResult
probe_result quote (bucket_info failure) = ping_result quote failure
probe_result quote _ = record {
  name = "";
  status = unhealthy;
  detail = "probe timeout";
  latency = pos 0;
}

module _ {Client : Type 0} where
  -- The one of BaseProvider.
  unfoldable pub shutdown : State Client → State Client × Option Error
  unfolding base_shutdown
  shutdown w = let (app, failure) = base_shutdown w.app in (record w { app = app }, failure)

module _ {Client : Type 0} (lib : Library Client) where
  unfoldable pub probe_bucket : OssConfig → Client → Option Error
  probe_bucket oc client =
      if not (oc.bucket == "") then lib.get_bucket_info client oc.bucket else none

module _ {F Client : Type 0} (quote : String → String) (lib : Library Client) where
  unfoldable pub init : State Client → AppConfig F → State Client × Option Error
  unfolding make_handle probe_bucket
  init w c =
      let oc = c.integrations.oss in
      if oc.endpoint == "" || oc.access_key == "" || oc.secret_key == ""
      then (
        w,
        some (integration_msg key not_configured "oss endpoint/access_key/secret_key required"),
      )
      else elim (lib.new_client oc.endpoint oc.access_key oc.secret_key
          (lib.seconds (connect_timeout oc.resilience)) (lib.seconds (op_timeout oc.resilience))) [
            | err e ↦ (w, some (integration_of key connect_failed e))
            | ok client ↦ elim (probe_bucket lib oc client) [
              | some e ↦ (w, some (integration_of key connect_failed e))
              | none ↦ (publish_twice handle_type key (make_handle oc client) w, none)
            ]
          ]

  unfoldable pub health_check : State Client → AppConfig F → Option Check
  unfolding probe_result
  health_check w c = elim (find handle_type w) [
    | none ↦ none
    | some h ↦
        if h.bucket == ""
        then none
        else some (record {
          name = key;
          probe = probe_result quote (lib.ask h.client h.bucket (pos (2 * second)));
        })
  ]

  pub init-Settles :
      (w : State Client) (c : AppConfig F) → Settles handle_type key clients w (init w c)
  unfolding init
  init-Settles w c =
      let oc = c.integrations.oss in
      let made =
        lib.new_client oc.endpoint oc.access_key oc.secret_key
          (lib.seconds (connect_timeout oc.resilience)) (lib.seconds (op_timeout oc.resilience)) in
      elim (Bool-cases (oc.endpoint == "" || oc.access_key == "" || oc.secret_key == "")) [
        | inl empty ↦ rw (empty) (early-Settles handle_type key clients w _)
        | inr given ↦ elim (Result-cases made) [
          | inr (e, bad) ↦ rw (given, bad) (early-Settles handle_type key clients w _)
          | inl (client, good) ↦ elim (Option-cases (probe_bucket lib oc client)) [
            | inr (e, dead) ↦ rw (given, good, dead) (early-Settles handle_type key clients w _)
            | inl alive ↦
                rw (given, good, alive)
                  (publish_twice-alone-Settles handle_type key clients w (make_handle oc client)
                    refl)
          ]
        ]
      ]

  abbrev pub lifecycle : Lifecycle (Handle Client) Client (AppConfig F)
  unfolding health_check shutdown
  lifecycle = record {
    t = handle_type;
    key = key;
    clients = clients;
    leaves = λ h. [];
    probed = λ h. not (h.bucket == "");
    init = init;
    health_check = health_check;
    shutdown = shutdown;
    init_settles = init-Settles;
    probe_of_handle = λ w c h found.
        rw (found, health_check)
          (elim (Bool-cases (h.bucket == "")) [ inl e ↦ rw (e) refl | inr e ↦ rw (e) refl ]);
    no_probe = λ w c missing. rw (missing, health_check) refl;
    shutdown_of_handle = λ w h found. nothing-released_with w;
    shutdown_of_none = λ w missing. refl;
  }
