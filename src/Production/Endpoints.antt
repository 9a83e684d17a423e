-- ===== src/Production/Endpoints.antt =====
-- hwhkit/production/endpoints.go: the routes and their answers. `latency_ms` is
-- Duration.Milliseconds; the JSON encoder and the handler of /metrics are parameters.
use hwhkit_go.Prelude.{
  ℕ, ◌*◌, ◌<◌, String, ◌≡◌, refl, ap, inl, inr, Bool, true, false, Option, none, some, List, [],
  ◌∷◌, map, arith, eq_iff, ◌==◌, nat_eq, string_eq, if◌then◌else◌, Bool-cases, is_some, length, any,
}
use hwhkit_go.Prelude.Int.{ℤ, pos, Duration, second, div_trunc, millisecond}
use hwhkit_go.BuildInfo
use hwhkit_go.BuildInfo.{Info, Variables}
use hwhkit_go.Core.Bootstrap.{BuiltApplication}
use hwhkit_go.Http.Response.{perform_all, blank_response, is_informational}
use hwhkit_go.Prelude.Dict
use hwhkit_go.Http.{Header, header_set, Call, set_header, write_header, write, header_set}
use hwhkit_go.Prelude.Text.{Bytes}
use hwhkit_go.Core.Health.{Status, unhealthy, status_string, CheckResult, Registry, probe}
use hwhkit_go.Core.Health.Verdict.{is_unhealthy}
use hwhkit_go.Core.Health.Probes.{sequential, ends, probe_any_order}

abbrev pub readiness_probe_timeout : Duration
readiness_probe_timeout = pos (5 * second)

pub record CheckReport : Type 0 where
  pub name : String
  pub status : String
  pub detail : String
  pub latency_ms : ℤ

pub record ReadyReport : Type 0 where
  pub code : ℕ
  pub status : String
  pub checks : List CheckReport

unfoldable pub check_report : CheckResult → CheckReport
check_report res = record {
  name = res.name;
  status = status_string res.status;
  detail = res.detail;
  latency_ms = div_trunc res.latency millisecond;
}

abbrev is_unhealthy_status : Status → Bool
is_unhealthy_status unhealthy = true
is_unhealthy_status _ = false

-- The handler of /health/ready.
unfoldable pub ready : Registry → (ℕ → Duration) → List ℕ → ReadyReport
unfolding check_report
ready registry since order =
    let (status, results) = probe registry since order in
    record {
      code = if is_unhealthy_status status then 503 else 200;
      status = status_string status;
      checks = map check_report results;
    }

-- What /info says.
pub record InfoReport : Type 0 where
  pub build : Info
  pub applied_sources : List String
  pub initialized_integrations : List String
  pub degraded_integrations : List String

-- The values that the handlers pass to writeJSON.
pub data Payload : Type 0 where
  status_payload : String → Payload
  ready_payload : ReadyReport → Payload
  version_payload : Info → Payload
  info_payload : InfoReport → Payload

-- writeJSON, as calls on the ResponseWriter; `encode` is the JSON encoder.
unfoldable pub write_json : (Payload → Bytes) → ℕ → Payload → List Call
write_json encode code v =
    set_header "Content-Type" "application/json" ∷ write_header code ∷ write (encode v) ∷ []

module _ {F App Router : Type 0} (encode : Payload → Bytes) (vars : Variables)
    (runtime_version : String) where
  unfoldable pub info_report : BuiltApplication F App Router → InfoReport
  info_report built = record {
    build = BuildInfo.get vars runtime_version;
    applied_sources = built.applied_sources;
    initialized_integrations = built.initialized_integrations;
    degraded_integrations = built.degraded_integrations;
  }

  -- The handlers that mountEndpoints mounts for GET, by their paths, except the one of /metrics.
  unfoldable pub endpoint :
      BuiltApplication F App Router → (ℕ → Duration) → List ℕ → String → Option (List Call)
  unfolding info_report write_json
  endpoint built since order path =
      let report = ready built.health_registry since order in
      if path == "/health"
      then some (write_json encode 200 (status_payload "healthy"))
      else if path == "/health/ready"
      then some (write_json encode report.code (ready_payload report))
      else if path == "/version"
      then some (write_json encode 200 (version_payload (BuildInfo.get vars runtime_version)))
      else if path == "/info"
      then some (write_json encode 200 (info_payload (info_report built)))
      else none

-- The paths that are mounted; /metrics needs a metrics registry.
unfoldable pub mounted_paths : Option ℕ → List String
mounted_paths metrics_registry =
    "/health"
    ∷ "/health/ready"
    ∷ "/version"
    ∷ "/info"
    ∷ (if is_some metrics_registry then "/metrics" ∷ [] else [])

-- In whatever order the probes end, /health/ready answers 503 if a check is unhealthy and 200 if
-- none is, also if some are degraded, and lists a report for each check in the order of
-- registration.
ready_code :
    (registry : Registry) (since : ℕ → Duration) (order : List ℕ)
    → ((i : ℕ) → i < length registry.checks → ends order i ≡ true)
    → ((ready registry since order).code
        ≡ (if any is_unhealthy (sequential registry.checks since 0) then 503 else 200))
      × ((ready registry since order).checks
          ≡ map check_report (sequential registry.checks since 0))
unfolding ready
ready_code registry since order every =
    rw (probe_any_order registry since order every) (ground arith, refl)

ready-final :
    (registry : Registry) (since : ℕ → Duration) (order : List ℕ)
    → is_informational (ready registry since order).code ≡ false
unfolding ready
ready-final registry since order = ground arith

json_sent :
    (encode : Payload → Bytes) (code : ℕ) (v : Payload)
    → is_informational code ≡ false
    → (perform_all blank_response (write_json encode code v)).sent
      ≡ some (code, ("Content-Type", "application/json" ∷ []) ∷ [])
unfolding write_json perform_all header_set Dict.put
json_sent encode code v final = rw (final) refl

-- What an answer has sent: the status and the headers.
abbrev pub sent_of : Option (List Call) → Option (Option (ℕ × Header))
sent_of none = none
sent_of (some calls) = some (perform_all blank_response calls).sent

-- The paths that have an answer are those that are mounted without /metrics, and an answer is sent
-- with the JSON content type, whatever the encoder makes of the payload, and with status 200
-- everywhere but at /health/ready, where it is the code of the report.
endpoint_lem :
    {F App Router : Type 0} (encode : Payload → Bytes) (vars : Variables) (runtime_version : String)
    (built : BuiltApplication F App Router) (since : ℕ → Duration) (order : List ℕ) (path : String)
    → sent_of (endpoint encode vars runtime_version built since order path) ≡ (
        if any (λ p. path == p) (mounted_paths none)
        then some (
            some (
              if path == "/health/ready"
                  then (ready built.health_registry since order).code
                  else 200,
              ("Content-Type", "application/json" ∷ []) ∷ [],
            ))
        else none)
unfolding endpoint mounted_paths
endpoint_lem encode vars runtime_version built since order path =
    let report = ready built.health_registry since order in
    let info = BuildInfo.get vars runtime_version in
    elim (Bool-cases (path == "/health")) [
      | inl e ↦
          rw ((eq_iff path "/health").0 e)
            (ap (λ r. some r) (json_sent encode 200 (status_payload "healthy") refl))
      | inr h ↦ elim (Bool-cases (path == "/health/ready")) [
        | inl e ↦ rw ((eq_iff path "/health/ready").0 e) (
            ap (λ r. some r)
              (json_sent encode report.code (ready_payload report)
                (ready-final built.health_registry since order)))
        | inr r ↦ elim (Bool-cases (path == "/version")) [
          | inl e ↦
              rw ((eq_iff path "/version").0 e)
                (ap (λ r. some r) (json_sent encode 200 (version_payload info) refl))
          | inr v ↦ elim (Bool-cases (path == "/info")) [
            | inl e ↦ rw ((eq_iff path "/info").0 e) (
                ap (λ r. some r)
                  (json_sent encode 200
                    (info_payload (info_report encode vars runtime_version built)) refl))
            | inr i ↦ rw (h, r, v, i) refl
          ]
        ]
      ]
    ]
