-- ===== src/Core/Bootstrap/Mapping.antt =====
-- validateFeatureMapping: which configurations it accepts, and what its error names.
use hwhkit_go.Prelude.{
  String, none, some, List, [], ◌∷◌, Bool, true, false, not, ◌&&◌, ◌≡◌, refl, ◌↔◌, arith, All,
  Bool-cases, inl, inr,
}
use hwhkit_go.Core.CoreError.{Error, feature_mismatch_error}
use hwhkit_go.Core.Features
use hwhkit_go.Core.Features.{Features}
use hwhkit_go.Core.Bootstrap.{mapping, check_rows, validate_feature_mapping}
use hwhkit_go.Config.AppConfig.{AppConfig}

-- A row whose integration is enabled names a feature that the program has.
abbrev pub Covered : Features → Bool × String → Type 0
Covered features row = row.0 ≡ true → Features.contains (some features) row.1 ≡ true

-- The first rows are covered, and the next one is enabled and has no feature.
abbrev pub FirstMissing : Features → List (Bool × String) → String → Type 0
FirstMissing features [] key = ⊥
FirstMissing features ((enabled, k) ∷ rows) key =
    elim (enabled && not (Features.contains (some features) k)) [
      | true ↦ k ≡ key
      | false ↦ FirstMissing features rows key
    ]

module _ (quote : String → String) (features : Features) where
  check_rows_accepts :
      (rows : List (Bool × String))
      → (check_rows quote features rows ≡ none) ↔ All (Covered features) rows
  unfolding check_rows
  check_rows_accepts [] = (λ _. tt, λ _. refl)
  check_rows_accepts ((false, k) ∷ rows) =
      let (to, from) = check_rows_accepts rows in (λ e. (λ h. cc, to e), λ a. from a.1)
  check_rows_accepts ((true, k) ∷ rows) =
      let (to, from) = check_rows_accepts rows in
      elim (Bool-cases (Features.contains (some features) k)) [
        | inl has ↦ rw has (λ e. (λ h. refl, to e), λ a. from a.1)
        | inr lacks ↦ rw lacks (λ e. cc, λ a. cc (a.0 refl))
      ]

  check_rows_names :
      (rows : List (Bool × String)) {e : Error}
      → check_rows quote features rows ≡ some e
      → (key : String) × FirstMissing features rows key × (e ≡ feature_mismatch_error quote key)
  unfolding check_rows
  check_rows_names [] h = cc
  check_rows_names ((enabled, k) ∷ rows) h =
      elim (Bool-cases (enabled && not (Features.contains (some features) k))) [
        | inl misses ↦ (k, rw (misses, FirstMissing) refl, ground arith)
        | inr fine ↦
            let (key, first, e) = check_rows_names rows (rw fine at h) in
            (key, rw (fine, FirstMissing) first, e)
      ]

-- The mapping check accepts a configuration exactly if each of the eight integrations that it
-- enables (postgres, redis, mongodb, nats, qdrant, neo4j, s3, oss) is a feature of the program.
pub validate_feature_mapping_accepts :
    {F : Type 0} (quote : String → String) (cfg : AppConfig F) (features : Features)
    → (validate_feature_mapping quote cfg features ≡ none) ↔ All (Covered features) (mapping cfg)
unfolding validate_feature_mapping
validate_feature_mapping_accepts quote cfg features =
    check_rows_accepts quote features (mapping cfg)

-- An error of the mapping check is the feature mismatch of the first enabled integration, in the
-- order of the eight, that is no feature of the program.
pub validate_feature_mapping_names :
    {F : Type 0} (quote : String → String) (cfg : AppConfig F) (features : Features) (e : Error)
    → validate_feature_mapping quote cfg features ≡ some e
    → (key : String) × FirstMissing features (mapping cfg) key
      × (e ≡ feature_mismatch_error quote key)
unfolding validate_feature_mapping
validate_feature_mapping_names quote cfg features e h =
    check_rows_names quote features (mapping cfg) h
