-- ===== src/Core/Bootstrap/Providers.antt =====
-- The loop over the providers against a description by the outcomes of their Init calls.
use hwhkit_go.Prelude.{
  String, some, List, [], ◌∷◌, ◌++◌, not, if◌then◌else◌, ◌≡◌, arith, Bool-cases, Option-cases, inl,
  inr, append_assoc, append-nil, is_some, Option, none,
}
use hwhkit_go.Core.CoreError.{ok}
use hwhkit_go.Core.Features
use hwhkit_go.Core.Features.{Features}
use hwhkit_go.Core.Health.{Registry, register}
use hwhkit_go.Core.Bootstrap.{
  Provider, Progress, init_provider, init_providers, Error, Result, feature_mismatch_error, err,
}
use hwhkit_go.Config.AppConfig.{AppConfig}

module _ {F App : Type 0} (cfg : AppConfig F) where
  -- The enabled providers in order, each with the error of its Init, if any, in the context that
  -- those before it have left.
  abbrev pub outcomes : List (Provider F App) → App → List (Provider F App × Option Error)
  outcomes [] app = []
  outcomes (p ∷ ps) app =
      let (app', failure) = p.init app cfg in
      let here = (p, failure) ∷ outcomes ps app' in
      let skip = outcomes ps app in if p.enabled cfg then here else skip

  -- The context and the registry that the enabled providers leave.
  abbrev pub final_app : List (Provider F App) → App → App
  final_app [] app = app
  final_app (p ∷ ps) app =
      let here = final_app ps (p.init app cfg).0 in
      let skip = final_app ps app in if p.enabled cfg then here else skip

  abbrev pub final_health : List (Provider F App) → App → Registry → Registry
  final_health [] app health = health
  final_health (p ∷ ps) app health =
      let (app', failure) = p.init app cfg in
      let failed = final_health ps app' health in
      let done = final_health ps app' (register health (p.health_check app' cfg)) in
      let skip = final_health ps app health in
      if p.enabled cfg then (if is_some failure then failed else done) else skip

  -- The error that stops the bootstrap: the first missing feature or failed required provider.
  abbrev pub first_error :
      (String → String) → Features → List (Provider F App × Option Error) → Option Error
  first_error quote features [] = none
  first_error quote features ((p, failure) ∷ os) =
      let rest = first_error quote features os in
      if not (Features.contains (some features) p.key)
      then some (feature_mismatch_error quote p.key)
      else elim failure [ none ↦ rest | some e ↦ if p.required cfg then some e else rest ]

abbrev pub succeeded :
    {F App : Type 0} → List (Provider F App × Option Error) → List (Provider F App)
succeeded [] = []
succeeded ((p, failure) ∷ os) =
    let rest = succeeded os in if is_some failure then rest else p ∷ rest

abbrev pub failed : {F App : Type 0} → List (Provider F App × Option Error) → List (Provider F App)
failed [] = []
failed ((p, failure) ∷ os) = let rest = failed os in if is_some failure then p ∷ rest else rest

abbrev pub keys_of : {F App : Type 0} → List (Provider F App) → List String
keys_of [] = []
keys_of (p ∷ ps) = p.key ∷ keys_of ps

abbrev pub extended :
    {F App : Type 0} → AppConfig F → List (Provider F App) → Progress F App → Progress F App
extended cfg ps s =
    let os = outcomes cfg ps s.app in
    record {
      app = final_app cfg ps s.app;
      health = final_health cfg ps s.app s.health;
      initialized = s.initialized ++ keys_of (succeeded os);
      degraded = s.degraded ++ keys_of (failed os);
      retained = s.retained ++ succeeded os;
    }

abbrev pub result_of : {F App : Type 0} → Option Error → Progress F App → Result (Progress F App)
result_of none s = ok s
result_of (some e) s = err e

module _ {F App : Type 0} (quote : String → String) (cfg : AppConfig F) (features : Features) where
  -- The loop fails with the error of the first enabled provider whose feature is missing or which
  -- is required and whose Init fails. If there is none it ends with the initialised keys and
  -- providers, the degraded keys, the context and the health checks that the outcomes of the Init
  -- calls say, in the order of the list.
  pub init_providers-eq-outcomes :
      (ps : List (Provider F App)) (s : Progress F App)
      → init_providers quote cfg features ps s
        ≡ result_of (first_error cfg quote features (outcomes cfg ps s.app)) (extended cfg ps s)
  unfolding init_providers init_provider
  init_providers-eq-outcomes [] s = simp append-nil
  init_providers-eq-outcomes (p ∷ ps) s =
      let (app, failure) = p.init s.app cfg in
      let os = outcomes cfg ps app in
      elim (Bool-cases (p.enabled cfg)) [
        | inr off ↦ ground (arith, init_providers-eq-outcomes ps s)
        | inl on ↦ elim (Option-cases failure) [
          | inl done ↦ ground (
            arith,
            init_providers-eq-outcomes ps (record s {
              app = app;
              health = register s.health (p.health_check app cfg);
              initialized = s.initialized ++ p.key ∷ [];
              retained = s.retained ++ p ∷ [];
            }),
            append_assoc s.initialized (p.key ∷ []) (keys_of (succeeded os)),
            append_assoc s.retained (p ∷ []) (succeeded os),
          )
          | inr (e, wrong) ↦ ground (
            arith,
            init_providers-eq-outcomes ps
                (record s { app = app; degraded = s.degraded ++ p.key ∷ [] }),
            append_assoc s.degraded (p.key ∷ []) (keys_of (failed os)),
          )
        ]
      ]
