-- ===== src/Core/Health.antt =====
-- core/health/health.go. A probe runs each check in a goroutine of its own, which writes the slot
-- of its check; the goroutines may end in any order, and `wg.Wait` waits for all of them.
pub mod Verdict
pub mod Probes
use hwhkit_go.Prelude.{
  ℕ, zero, suc, String, Option, none, some, List, [], ◌∷◌, ◌++◌, map, Bool, ◌==◌, Eq, string_eq,
  if◌then◌else◌, length, get_elem?, set, Option-cases,
}
use hwhkit_go.Prelude.Int.{ℤ, pos, Duration}

pub data Status : Type 0 where
  unknown healthy degraded unhealthy : Status

unfoldable pub status_string : Status → String
status_string healthy = "healthy"
status_string degraded = "degraded"
status_string unhealthy = "unhealthy"
status_string unknown = "unknown"

pub record CheckResult : Type 0 where
  pub name : String
  pub status : Status
  pub detail : String
  pub latency : Duration

-- A Check: its name, and the result of its Probe at the time of the call.
pub record Check : Type 0 where
  pub name : String
  pub probe : CheckResult

-- The value that `make([]Result, n)` puts into a slot.
abbrev pub zero_result : CheckResult
zero_result = record { name = ""; status = unknown; detail = ""; latency = pos 0 }

pub record Registry : Type 0 where
  pub checks : List Check

unfoldable pub new_registry : Registry
new_registry = record { checks = [] }

-- Register: a nil check is ignored.
unfoldable pub register : Registry → Option Check → Registry
register r none = r
register r (some c) = record r { checks = r.checks ++ c ∷ [] }

-- What a goroutine stores for its check, after `time.Since(start)`.
unfoldable pub run_check : Check → Duration → CheckResult
run_check c since =
    let res = c.probe in
    record res { name = if res.name == "" then c.name else res.name; latency = since }

-- The goroutine of slot `i` ends.
module _ (checks : List Check) (since : ℕ → Duration) where
  unfoldable pub finish_one : List CheckResult → ℕ → List CheckResult
  finish_one results i = elim (get_elem? checks i) [
    | none ↦ results
    | some c ↦ set results i (run_check c (since i))
  ]

  unfoldable pub finish_all : List CheckResult → List ℕ → List CheckResult
  finish_all results [] = results
  finish_all results (i ∷ order) = finish_all (finish_one results i) order

abbrev pub blank : List Check → List CheckResult
blank [] = []
blank (c ∷ cs) = zero_result ∷ blank cs

-- The loop over the results; `overall` starts as healthy.
unfoldable pub overall_from : Status → List CheckResult → Status
overall_from overall [] = overall
overall_from overall (r ∷ rs) = elim r.status [
  | unhealthy ↦ unhealthy
  | degraded ↦ overall_from degraded rs
  | _ ↦ overall_from overall rs
]

-- Probe, where the goroutines end in the order `order` and check `i` takes `since i`. The results
-- are nil if there is no check.
unfoldable pub probe : Registry → (ℕ → Duration) → List ℕ → Status × List CheckResult
unfolding finish_all finish_one overall_from
probe r since order =
    let results = finish_all r.checks since (blank r.checks) order in
    elim r.checks [ [] ↦ (healthy, []) | c ∷ cs ↦ (overall_from healthy results, results) ]
