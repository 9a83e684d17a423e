-- ===== src/Facade/Registration.antt =====
-- What the options of Run promise to the bootstrap.
use hwhkit_go.Prelude.{
  String, ◌≡◌, refl, ap, ◌∙◌, inl, inr, Bool, true, false, ◌||◌, Option, none, some, List, [], ◌∷◌,
  arith, eq_iff, ◌==◌, nat_eq, string_eq, if◌then◌else◌, Bool-cases, Option-cases, any, All,
  All-append,
}
use hwhkit_go.Prelude.Dict.{get}
use hwhkit_go.Core.CoreError.{Error}
use hwhkit_go.Core.Features
use hwhkit_go.Core.Features.{Features}
use hwhkit_go.Core.Features.Laws.{contains-enable}
use hwhkit_go.Core.Bootstrap.{Provider, Progress, init_providers}
use hwhkit_go.Core.Bootstrap.Providers.{
  outcomes, first_error, extended, result_of, init_providers-eq-outcomes,
}
use hwhkit_go.Config.AppConfig.{AppConfig}
use hwhkit_go.Facade.{
  Setting, with_provider, with_loader, with_feature, Options, Loading, defaults, apply, apply_all,
}

-- A setting enables a feature: it is WithFeature of it, or WithProvider of a provider with its key.
abbrev pub enables : {F App : Type 0} → String → Setting F App → Bool
enables key (with_provider p) = p.key == key
enables key (with_loader l) = false
enables key (with_feature k) = k == key

contains-apply_all :
    {F App : Type 0} (key : String) (ss : List (Setting F App)) (o : Options F App)
    → Features.contains (some (apply_all ss o).features) key
      ≡ (Features.contains (some o.features) key || any (enables key) ss)
unfolding apply_all apply
contains-apply_all key [] o = ground arith
contains-apply_all key (with_provider p ∷ ss) o = ground (
  arith,
  contains-apply_all key ss (apply (with_provider p) o),
  contains-enable o.features p.key key,
)
contains-apply_all key (with_loader l ∷ ss) o =
    ground (arith, contains-apply_all key ss (apply (with_loader l) o))
contains-apply_all key (with_feature k ∷ ss) o =
    ground (
      arith,
      contains-apply_all key ss (apply (with_feature k) o),
      contains-enable o.features k key,
    )

-- The features that Run gives to BootstrapWith are those that the settings enable, no others.
pub contains-options :
    {F App : Type 0} (l : Loading F) (ss : List (Setting F App)) (key : String)
    → Features.contains (some (apply_all ss (defaults l)).features) key ≡ any (enables key) ss
unfolding defaults Features.contains Features.new get
contains-options l ss key = contains-apply_all key ss (defaults l)

-- Every provider's key is a feature.
abbrev Registered : {F App : Type 0} → Features → List (Provider F App) → Type 0
Registered f ps = All (λ p. Features.contains (some f) p.key ≡ true) ps

Registered-enable :
    {F App : Type 0} (f : Features) (key : String) (ps : List (Provider F App))
    → Registered f ps
    → Registered (Features.enable f key) ps
Registered-enable f key [] h = tt
Registered-enable f key (p ∷ ps) h =
    (ground (arith, contains-enable f key p.key, h.0), Registered-enable f key ps h.1)

Registered-apply_all :
    {F App : Type 0} (ss : List (Setting F App)) (o : Options F App)
    → Registered o.features o.providers
    → Registered (apply_all ss o).features (apply_all ss o).providers
unfolding apply_all apply
Registered-apply_all [] o h = h
Registered-apply_all (with_provider p ∷ ss) o h =
    Registered-apply_all ss (apply (with_provider p) o) (
      All-append (λ q. Features.contains (some (Features.enable o.features p.key)) q.key ≡ true)
        o.providers (p ∷ []) (Registered-enable o.features p.key o.providers h)
        (ground (arith, contains-enable o.features p.key p.key, eq_iff p.key p.key), tt))
Registered-apply_all (with_loader l ∷ ss) o h = Registered-apply_all ss (apply (with_loader l) o) h
Registered-apply_all (with_feature k ∷ ss) o h =
    Registered-apply_all ss (apply (with_feature k) o)
      (Registered-enable o.features k o.providers h)

module _ {F App : Type 0} (quote : String → String) (cfg : AppConfig F) where
  -- The error of the first required provider whose Init fails.
  abbrev pub required_failure : List (Provider F App × Option Error) → Option Error
  required_failure [] = none
  required_failure ((p, failure) ∷ os) =
      let rest = required_failure os in
      elim failure [ none ↦ rest | some e ↦ if p.required cfg then some e else rest ]

  first_error-Registered :
      (f : Features) (ps : List (Provider F App)) (app : App)
      → Registered f ps
      → first_error cfg quote f (outcomes cfg ps app) ≡ required_failure (outcomes cfg ps app)
  first_error-Registered f [] app h = refl
  first_error-Registered f (p ∷ ps) app h = elim (Bool-cases (p.enabled cfg)) [
    | inr off ↦ ground (arith, first_error-Registered f ps app h.1)
    | inl on ↦ elim (Option-cases (p.init app cfg).1) [
      | inl done ↦ ground (arith, h.0, first_error-Registered f ps (p.init app cfg).0 h.1)
      | inr (e, wrong) ↦
          ground (arith, h.0, wrong, first_error-Registered f ps (p.init app cfg).0 h.1)
    ]
  ]

  -- Whatever the settings of Run are, the loop over the providers does not fail with a missing
  -- feature: it stops only at a required provider whose Init fails, and with that error.
  pub run_never_mismatches :
      (l : Loading F) (ss : List (Setting F App)) (s : Progress F App)
      → let o = apply_all ss (defaults l) in
        init_providers quote cfg o.features o.providers s
        ≡ result_of (required_failure (outcomes cfg o.providers s.app)) (extended cfg o.providers s)
  unfolding defaults
  run_never_mismatches l ss s =
      let o = apply_all ss (defaults l) in
      init_providers-eq-outcomes quote cfg o.features o.providers s
      ∙ ap (λ e. result_of e (extended cfg o.providers s))
          (first_error-Registered o.features o.providers s.app
            (Registered-apply_all ss (defaults l) tt))
