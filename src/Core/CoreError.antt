-- ===== src/Core/CoreError.antt =====
-- core/coreerror/error.go, and Go's `error` values as far as the packages build them.
use hwhkit_go.Prelude.{String, Option, none, some, [], ◌∷◌, ◌≡◌, ◌⊎◌, inl, inr, refl}
use hwhkit_go.Prelude.Text.{concat}

pub data Kind : Type 0 where
  unknown timeout connect_failed invalid_url auth_failed : Kind
  not_configured feature_mismatch invalid_config integration : Kind

pub Kind-discrete : Discrete Kind
Kind-discrete = hlevel

unfoldable pub kind_string : Kind → String
kind_string timeout = "timeout"
kind_string connect_failed = "connect_failed"
kind_string invalid_url = "invalid_url"
kind_string auth_failed = "auth_failed"
kind_string not_configured = "not_configured"
kind_string feature_mismatch = "feature_mismatch"
kind_string invalid_config = "invalid_config"
kind_string integration = "integration"
kind_string _ = "unknown"

-- `plain` is errors.New or an error of a library, `wrapped` is fmt.Errorf("text: %w", err), and an
-- *IntegrationError has a key, a kind and perhaps a cause.
pub data Error : Type 0 where
  plain : String → Error
  wrapped : String → Error → Error
  integration_error : String → Kind → Error → Error
  bare_integration_error : String → Kind → Error

unfoldable pub unwrap : Error → Option Error
unwrap (plain s) = none
unwrap (wrapped s e) = some e
unwrap (integration_error key kind e) = some e
unwrap (bare_integration_error key kind) = none

-- `Error()`; `quote` is fmt's `%q`.
module _ (quote : String → String) where
  unfoldable pub error_text : Error → String
  error_text (plain s) = s
  error_text (wrapped s e) = concat (s ∷ ": " ∷ error_text e ∷ [])
  error_text (integration_error key kind e) =
      concat ("integration " ∷ quote key ∷ ": " ∷ kind_string kind ∷ ": " ∷ error_text e ∷ [])
  error_text (bare_integration_error key kind) =
      concat ("integration " ∷ quote key ∷ ": " ∷ kind_string kind ∷ [])

unfoldable pub integration_of : String → Kind → Error → Error
integration_of key kind err = integration_error key kind err

unfoldable pub integration_msg : String → Kind → String → Error
integration_msg key kind msg = integration_error key kind (plain msg)

unfoldable pub feature_mismatch_error : (String → String) → String → Error
feature_mismatch_error quote feature = integration_error feature feature_mismatch (
    plain
      (concat ("config enables integration " ∷ quote feature ∷ " but no provider registered" ∷ [])))

unfoldable pub invalid_config_error : String → Error
invalid_config_error msg = integration_error "config" invalid_config (plain msg)

-- errors.As with an *IntegrationError: the first one of the chain.
unfoldable pub as_integration : Error → Option (String × Kind)
as_integration (plain s) = none
as_integration (wrapped s e) = as_integration e
as_integration (integration_error key kind e) = some (key, kind)
as_integration (bare_integration_error key kind) = some (key, kind)

-- A value and an error, of which the caller looks at one.
pub data Result {ℓ} (A : Type ℓ) : Type ℓ where
  ok : A → Result A
  err : Error → Result A

infixl 5 ◌>>=◌
abbrev pub ◌>>=◌ {ℓ κ} : {A : Type ℓ} {B : Type κ} → Result A → (A → Result B) → Result B
ok a >>= f = f a
err e >>= f = err e

pub Result-cases :
    {A : Type 0} (r : Result A) → ((a : A) × (r ≡ ok a)) ⊎ ((e : Error) × (r ≡ err e))
Result-cases (ok a) = inl (a, refl)
Result-cases (err e) = inr (e, refl)

pub ok-injective : {A : Type 0} {a b : A} → ok a ≡ ok b → a ≡ b
ok-injective h = cc
