-- ===== src/Core/Bootstrap/Winners.antt =====
-- The providers that succeed in the loop of BootstrapWith, for a list in two parts.
use hwhkit_go.Prelude.{◌≡◌, refl, ap, inl, inr, List, [], ◌∷◌, ◌++◌, All, Bool-cases, Option-cases}
use hwhkit_go.Config.AppConfig.{AppConfig}
use hwhkit_go.Core.Bootstrap.{Provider}
use hwhkit_go.Core.Bootstrap.Providers.{outcomes, final_app, succeeded}

module _ {F App : Type 0} (cfg : AppConfig F) where
  pub final_app-append :
      (ps qs : List (Provider F App)) (a : App)
      → final_app cfg (ps ++ qs) a ≡ final_app cfg qs (final_app cfg ps a)
  final_app-append [] qs a = refl
  final_app-append (p ∷ ps) qs a = elim (Bool-cases (p.enabled cfg)) [
    | inr off ↦ rw (off) (final_app-append ps qs a)
    | inl on ↦ rw (on) (final_app-append ps qs (p.init a cfg).0)
  ]

  -- The providers that succeed, from a given state on.
  abbrev pub winners : List (Provider F App) → App → List (Provider F App)
  winners ps a = succeeded (outcomes cfg ps a)

  pub winners-append :
      (ps qs : List (Provider F App)) (a : App)
      → winners (ps ++ qs) a ≡ winners ps a ++ winners qs (final_app cfg ps a)
  winners-append [] qs a = refl
  winners-append (p ∷ ps) qs a = elim (Bool-cases (p.enabled cfg)) [
    | inr off ↦ rw (off) (winners-append ps qs a)
    | inl on ↦ elim (Option-cases (p.init a cfg).1) [
      | inl fine ↦ rw (on, fine) (ap (λ l. p ∷ l) (winners-append ps qs (p.init a cfg).0))
      | inr (e, wrong) ↦ rw (on, wrong) (winners-append ps qs (p.init a cfg).0)
    ]
  ]

  pub All-winners :
      (P : Provider F App → Type 0) (ps : List (Provider F App)) (a : App)
      → All P ps
      → All P (winners ps a)
  All-winners P [] a h = tt
  All-winners P (p ∷ ps) a h = elim (Bool-cases (p.enabled cfg)) [
    | inr off ↦ rw (off) (All-winners P ps a h.1)
    | inl on ↦ elim (Option-cases (p.init a cfg).1) [
      | inl fine ↦ rw (on, fine) (h.0, All-winners P ps (p.init a cfg).0 h.1)
      | inr (e, wrong) ↦ rw (on, wrong) (All-winners P ps (p.init a cfg).0 h.1)
    ]
  ]
