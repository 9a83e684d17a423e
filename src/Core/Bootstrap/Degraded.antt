-- ===== src/Core/Bootstrap/Degraded.antt =====
-- A provider that is degraded, against a bootstrap without it.
use hwhkit_go.Prelude.{
  String, ◌≡◌, refl, sym, ap, ◌∙◌, subst, inl, inr, true, false, none, some, List, [], ◌∷◌, arith,
  nat_eq, string_eq, Bool-cases, Option-cases, All,
}
use hwhkit_go.Core.CoreError.{Error, ok-injective, ok, err}
use hwhkit_go.Core.Features.{Features}
use hwhkit_go.Core.Health.{Registry}
use hwhkit_go.Core.AppContext.{AppContext}
use hwhkit_go.Core.Bootstrap.{
  Provider, register, Progress, start, init_providers, first_context, new_registry,
}
use hwhkit_go.Core.Bootstrap.Providers.{
  outcomes, final_app, final_health, first_error, succeeded, failed, extended,
  init_providers-eq-outcomes, result_of,
}
use hwhkit_go.Config.AppConfig.{AppConfig}

module _ {F App : Type 0} (cfg : AppConfig F) where
  -- An Init with an error leaves the state as it was.
  abbrev pub Traceless : Provider F App → Type 0
  Traceless p = (app : App) (e : Error) → (p.init app cfg).1 ≡ some e → (p.init app cfg).0 ≡ app

  -- The providers that succeed, in the state that they are given in turn.
  abbrev winners : List (Provider F App) → App → List (Provider F App)
  winners ps app = succeeded (outcomes cfg ps app)

  module _ (P : List (Provider F App) → App → Type 0) (empty : (app : App) → P [] app)
      (disabled : (p : Provider F App) (ps : List (Provider F App)) (app : App)
        → p.enabled cfg ≡ false
        → P ps app
        → P (p ∷ ps) app)
      (done : (p : Provider F App) (ps : List (Provider F App)) (app : App)
        → p.enabled cfg ≡ true
        → (p.init app cfg).1 ≡ none
        → P ps (p.init app cfg).0
        → P (p ∷ ps) app)
      (lost : (p : Provider F App) (ps : List (Provider F App)) (app : App) (e : Error)
        → p.enabled cfg ≡ true
        → (p.init app cfg).1 ≡ some e
        → (p.init app cfg).0 ≡ app
        → P ps app
        → P (p ∷ ps) app) where
    -- Induction over the providers by what becomes of them.
    by_outcome : (ps : List (Provider F App)) (app : App) → All Traceless ps → P ps app
    by_outcome [] app h = empty app
    by_outcome (p ∷ ps) app h = elim (Bool-cases (p.enabled cfg)) [
      | inr off ↦ disabled p ps app off (by_outcome ps app h.1)
      | inl on ↦ elim (Option-cases (p.init app cfg).1) [
        | inl fine ↦ done p ps app on fine (by_outcome ps (p.init app cfg).0 h.1)
        | inr (e, wrong) ↦ lost p ps app e on wrong (h.0 app e wrong) (by_outcome ps app h.1)
      ]
    ]

  -- Starting only the providers that succeed leads to the same state and the same health checks,
  -- and each of them succeeds again.
  abbrev Same : List (Provider F App) → App → Type 0
  Same ps app =
      (winners (winners ps app) app ≡ winners ps app)
      × (failed (outcomes cfg (winners ps app) app) ≡ [])
      × (final_app cfg (winners ps app) app ≡ final_app cfg ps app)
      × ((health : Registry)
          → final_health cfg (winners ps app) app health ≡ final_health cfg ps app health)

  Same-winners : (ps : List (Provider F App)) (app : App) → All Traceless ps → Same ps app
  Same-winners =
      by_outcome Same (λ app. (refl, refl, refl, λ health. refl))
        (λ p ps app off (again, none_failed, ctx, checks).
          rw (off) (again, none_failed, ctx, checks))
        (λ p ps app on fine (again, none_failed, ctx, checks).
          rw (on, fine, on, fine)
            (
              ap (λ l. p ∷ l) again,
              none_failed,
              ctx,
              λ health. checks (register health (p.health_check (p.init app cfg).0 cfg)),
            ))
        (λ p ps app e on wrong same (again, none_failed, ctx, checks).
          rw (on, wrong, same) (again, none_failed, ctx, checks))

  -- With no error that stops the loop, there is none for the providers that succeed.
  quiet_without :
      (quote : String → String) (features : Features) (ps : List (Provider F App)) (app : App)
      → All Traceless ps
      → first_error cfg quote features (outcomes cfg ps app) ≡ none
      → first_error cfg quote features (outcomes cfg (winners ps app) app) ≡ none
  quiet_without quote features =
      by_outcome
        (λ ps app.
          first_error cfg quote features (outcomes cfg ps app) ≡ none
          → first_error cfg quote features (outcomes cfg (winners ps app) app) ≡ none)
        (λ app h. refl) (λ p ps app off ih h. rw (off) (ih (sym (rw (off) refl) ∙ h)))
        (λ p ps app on fine ih h. ground (arith, on, fine, h, ih))
        (λ p ps app e on wrong same ih h. ground (arith, on, wrong, same, h, ih))

  extended_without :
      (enter : AppContext → App) (ps : List (Provider F App))
      → All Traceless ps
      → extended cfg (winners ps (enter first_context)) (start enter)
        ≡ (record (extended cfg ps (start enter)) { degraded = [] })
  extended_without enter ps h =
      let (again, none_failed, ctx, checks) = Same-winners ps (enter first_context) h in
      rw (again, none_failed, ctx, checks new_registry) refl

  -- If an Init with an error leaves the state as it was, a degraded provider leaves no trace: the
  -- loop over the providers that a successful one has retained, without the degraded ones, succeeds
  -- too and ends with the same state, health checks, initialised keys and retained providers.
  pub degraded-Traceless :
      (quote : String → String) (enter : AppContext → App) (features : Features)
      (ps : List (Provider F App)) (r : Progress F App)
      → All Traceless ps
      → init_providers quote cfg features ps (start enter) ≡ ok r
      → init_providers quote cfg features r.retained (start enter) ≡ ok (record r { degraded = [] })
  degraded-Traceless quote enter features ps r h ran =
      let app0 = enter first_context in
      let first = first_error cfg quote features (outcomes cfg ps app0) in
      let whole = sym (init_providers-eq-outcomes quote cfg features ps (start enter)) ∙ ran in
      elim (Option-cases first) [
        | inr (e, stops) ↦
            let failed_run : result_of first (extended cfg ps (start enter)) ≡ err e =
              rw (stops) refl in
            absurd (cc)
        | inl none_stops ↦
            let good_run : result_of first (extended cfg ps (start enter))
                ≡ ok (extended cfg ps (start enter)) =
              rw (none_stops) refl in
            let same : extended cfg ps (start enter) ≡ r = ok-injective (sym good_run ∙ whole) in
            subst
              (λ x.
                init_providers quote cfg features x.retained (start enter)
                ≡ ok (record x { degraded = [] }))
              same
              (init_providers-eq-outcomes quote cfg features (winners ps app0) (start enter)
                ∙ (rw (quiet_without quote features ps app0 h none_stops)
                    (ap ok (extended_without enter ps h))))
      ]
