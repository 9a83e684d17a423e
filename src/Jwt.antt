-- ===== src/Jwt.antt =====
-- jwt/verifier.go and jwt/middleware.go. `F` is float64, `positive` its `> 0` and `to_int64` its
-- conversion to int64. jwt.Parse with its key function and leeway is `parse`, and strings.TrimSpace
-- is `trim_space`.
pub mod Acceptance
pub mod Keys
use hwhkit_go.Prelude.{
  ℕ, zero, suc, ◌+◌, ◌-◌, ◌*◌, ◌/◌, ◌%◌, ◌^◌, ◌≤◌, ◌<◌, String, ◌≡◌, refl, sym, ap, ◌∙◌, subst, ◌≢◌,
  ◌↔◌, ◌⊎◌, inl, inr, Bool, true, false, not, ◌&&◌, ◌||◌, Option, none, some, List, [], ◌∷◌, ◌++◌,
  map, append-nil, append_assoc, arith, eq_iff, ltb, leb, Eq, ◌==◌, nat_eq, string_eq,
  if◌then◌else◌, ltb→lt, lt→ltb, leb→le, tests, Bool-cases, Option-cases, is_some, or_else, length,
  get_elem?, set, any, all, length-append, length-map, All, All-append,
}
use hwhkit_go.Prelude.Int.{ℤ, pos, negsuc, Duration, second, ltb_ℤ, add_ℤ}
use hwhkit_go.Prelude.Text.{strip_prefix}
use hwhkit_go.Prelude.Dict
use hwhkit_go.Prelude.Dict.{Dict}
use hwhkit_go.Core.ApiError.{ApiError, unauthorized}
use hwhkit_go.Http.{
  Request, Handler, Middleware, ContextValue, request_id, tenant_id, claims, with_value, header_get,
  Call,
}

-- A value of the claims' map: a string, a float64, or anything else.
pub data ClaimValue (F : Type 0) : Type 0 where
  text : String → ClaimValue F
  number : F → ClaimValue F
  other : ClaimValue F

pub record Claims (F : Type 0) : Type 0 where
  pub subject : String
  pub issuer : String
  pub raw : Dict (ClaimValue F)

pub record Options : Type 0 where
  pub audience : String
  pub issuer : String
  pub clock_skew : Duration

pub data VerifyError : Type 0 where
  err_invalid_signature err_expired err_invalid_audience err_invalid_issuer : VerifyError
  unexpected_claim_type : VerifyError

abbrev pub error_message : VerifyError → String
error_message err_invalid_signature = "invalid signature"
error_message err_expired = "token expired"
error_message err_invalid_audience = "invalid audience"
error_message err_invalid_issuer = "invalid issuer"
error_message unexpected_claim_type = "unexpected claim type"

-- What jwt.Parse returns: an error, or a token with `Valid` and, if its claims are a MapClaims,
-- their map.
pub data Parsed (F : Type 0) : Type 0 where
  parse_error : Parsed F
  token : Bool → Option (Dict (ClaimValue F)) → Parsed F

-- `s, _ := mc[key].(string)`
abbrev pub text_or_empty : {F : Type 0} → Option (ClaimValue F) → String
text_or_empty (some (text s)) = s
text_or_empty _ = ""

abbrev pub text_claim : {F : Type 0} → Dict (ClaimValue F) → String → String
text_claim mc key = text_or_empty (Dict.get key mc)

-- a * b and a - b on the time line, in nanoseconds.
abbrev pub seconds : ℤ → ℤ
seconds (pos n) = pos (n * second)
seconds (negsuc n) = negsuc (n * second + (second - 1))

abbrev pub negate : ℤ → ℤ
negate (pos zero) = pos 0
negate (pos (suc n)) = negsuc n
negate (negsuc n) = pos (suc n)

module _ {F : Type 0} (positive : F → Bool) (to_int64 : F → ℤ) where
  -- The test of "exp" at the time `now`, in nanoseconds since 1970.
  abbrev pub is_expired : Options → ℤ → Option (ClaimValue F) → Bool
  is_expired opts now (some (number exp)) =
      positive exp && ltb_ℤ (seconds (to_int64 exp)) (add_ℤ now (negate opts.clock_skew))
  is_expired opts now _ = false

  abbrev pub claims_of : Dict (ClaimValue F) → Claims F
  claims_of mc = record { subject = text_claim mc "sub"; issuer = text_claim mc "iss"; raw = mc }

  -- The tests on the claims, in order.
  unfoldable pub check_claims : Options → ℤ → Dict (ClaimValue F) → VerifyError ⊎ Claims F
  check_claims opts now mc =
      if is_expired opts now (Dict.get "exp" mc)
      then inl err_expired
      else if not (opts.audience == "") && not (text_claim mc "aud" == opts.audience)
      then inl err_invalid_audience
      else if not (opts.issuer == "") && not (text_claim mc "iss" == opts.issuer)
      then inl err_invalid_issuer
      else inr (claims_of mc)

  unfoldable pub parse_and_validate :
      (String → Parsed F) → Options → ℤ → String → VerifyError ⊎ Claims F
  unfolding check_claims
  parse_and_validate parse opts now token_str = elim (parse token_str) [
    | parse_error ↦ inl err_invalid_signature
    | token valid mc ↦
        if not valid
        then inl err_invalid_signature
        else elim mc [ none ↦ inl unexpected_claim_type | some m ↦ check_claims opts now m ]
  ]

-- FromContext.
unfoldable pub claims_from_context : {C : Type 0} → List (ContextValue C) → Option C
claims_from_context [] = none
claims_from_context (claims c ∷ vs) = some c
claims_from_context (request_id i ∷ vs) = claims_from_context vs
claims_from_context (tenant_id t ∷ vs) = claims_from_context vs

-- WithClaims.
unfoldable pub with_claims : {C : Type 0} → List (ContextValue C) → C → List (ContextValue C)
with_claims ctx c = claims c ∷ ctx

-- FromContext finds the claims that were put in last.
pub claims_from_context-with_claims :
    {C : Type 0} (ctx : List (ContextValue C)) (c : C)
    → claims_from_context (with_claims ctx c) ≡ some c
unfolding claims_from_context with_claims
claims_from_context-with_claims ctx c = refl

unfoldable pub bearer : {C : Type 0} → (String → String) → Request C → Option String
bearer trim_space r =
    let h = header_get "Authorization" r.header in
    let (has_prefix, rest) = strip_prefix "Bearer " h in
    if h == "" then none else if not has_prefix then none else some (trim_space rest)

-- Middleware; `verify` is the verifier's Verify, with the text of its error.
unfoldable pub bearer_middleware :
    {C : Type 0} → (String → String) → (String → String ⊎ C) → (ApiError → List Call) → Middleware C
bearer_middleware trim_space verify error_calls next r = elim (bearer trim_space r) [
  | none ↦ record {
    calls = error_calls (unauthorized "missing or malformed Authorization header");
    panicked = false;
  }
  | some tok ↦ elim (verify tok) [
    | inl e ↦ record { calls = error_calls (unauthorized e); panicked = false }
    | inr c ↦ next (with_value (claims c) r)
  ]
]
