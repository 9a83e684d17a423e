-- ===== src/Core/Health/Verdict.antt =====
-- What the overall status says of the results.
use hwhkit_go.Prelude.{List, [], ◌∷◌, Bool, true, false, ◌≡◌, refl, arith, any, if◌then◌else◌}
use hwhkit_go.Core.Health.{Status, healthy, degraded, unhealthy, CheckResult, overall_from}

abbrev pub is_unhealthy : CheckResult → Bool
is_unhealthy r = elim r.status [ unhealthy ↦ true | _ ↦ false ]

abbrev pub is_degraded : CheckResult → Bool
is_degraded r = elim r.status [ degraded ↦ true | _ ↦ false ]

-- Unhealthy if a result is, else degraded if a result is, else healthy; so a result of unknown
-- status does not count against the service.
abbrev pub verdict : List CheckResult → Status
verdict rs =
    if any is_unhealthy rs then unhealthy else if any is_degraded rs then degraded else healthy

overall_from-degraded :
    (rs : List CheckResult)
    → overall_from degraded rs ≡ (if any is_unhealthy rs then unhealthy else degraded)
unfolding overall_from
overall_from-degraded [] = refl
overall_from-degraded (r ∷ rs) = ground (arith, overall_from-degraded rs)

-- The loop over the results, which returns at the first unhealthy one, gives the verdict: it is
-- unhealthy if some result is, otherwise degraded if some result is, otherwise healthy.
pub overall-eq-verdict : (rs : List CheckResult) → overall_from healthy rs ≡ verdict rs
unfolding overall_from
overall-eq-verdict [] = refl
overall-eq-verdict (r ∷ rs) = ground (arith, overall-eq-verdict rs, overall_from-degraded rs)
