-- ===== src/Examples/Requests.antt =====
-- The middleware, the tenants and the bearer tokens at concrete inputs.
use mathlib.Core.Option.{some-injective}
use hwhkit_go.Prelude.{
  ℕ, ◌*◌, String, ◌≡◌, refl, ap, ◌∙◌, ◌⊎◌, inl, true, false, Option, none, some, [], ◌∷◌, arith,
  ltb, nat_eq, string_eq,
}
use hwhkit_go.Prelude.Int.{pos, negsuc, second, Duration}
use hwhkit_go.Prelude.Text.{strip_prefix, Bytes}
use hwhkit_go.Prelude.Dict
use hwhkit_go.Prelude.Dict.{Dict}
use hwhkit_go.Http.{Request, header_get}
use hwhkit_go.Http.Response.{perform_all, blank_response, status_of}
use hwhkit_go.Middleware.AccessLog.{http_metrics, access_log, RequestLabels, LogLine}
use hwhkit_go.Middleware.Cors.Itoa.{itoa, itoa-Decimal, Decimal, signed}
use hwhkit_go.Tenant.{Scope, new_lazy_scope, get_value}
use hwhkit_go.Jwt.{
  ClaimValue, text, number, Options, Parsed, token, parse_and_validate, bearer, bearer_middleware,
  err_invalid_signature,
}
use hwhkit_go.Jwt.Keys
use hwhkit_go.Core.CoreError
use hwhkit_go.Jwt.Acceptance.{accepts-parse_and_validate, accepts, good_token, refused_is_401}
use hwhkit_go.Core.ApiError.{write_json}
use hwhkit_go.Examples.Setup.{sample_request, created, crashing, same_text}

-- Middleware.

itoa-Decimal_example :
    (ds : Bytes) × (itoa (negsuc 41) ≡ some (signed (negsuc 41) ds)) × Decimal ds 42
itoa-Decimal_example = itoa-Decimal (negsuc 41) (omega arith)

abbrev sample_labels : RequestLabels
sample_labels = record { method = "POST"; route = "/orders"; status = 201 }

abbrev sample_line : LogLine
sample_line = record {
  method = "POST";
  path = "/orders";
  status = 201;
  bytes = 2;
  remote = "10.0.0.1";
  request_id = "";
}

counted : (http_metrics "" created sample_request).1 ≡ some sample_labels
unfolding http_metrics
counted = refl

logged : (access_log created sample_request).1 ≡ some sample_line
unfolding access_log
logged = refl

-- Tenants.

abbrev made_scope : Scope ℕ
made_scope = new_lazy_scope (λ t. (some 7, false))

first_get : (get_value made_scope "acme").0 ≡ (some 7, true)
unfolding get_value Dict.get new_lazy_scope
first_get = refl

abbrev no_tenant : Request String → Option String
no_tenant r = none

-- Bearer tokens. A float64 is a natural number here.

abbrev sample_claims : Dict (ClaimValue ℕ)
sample_claims = ("sub", text "ann") ∷ ("aud", text "shop") ∷ ("exp", number 2000) ∷ []

abbrev sample_parse : String → Parsed ℕ
sample_parse s = token true (some sample_claims)

abbrev for_shop : Options
for_shop = record { audience = "shop"; issuer = ""; clock_skew = pos second }

accepts-parse_and_validate_example :
    accepts (parse_and_validate (λ n. ltb 0 n) pos sample_parse for_shop (pos (1000 * second)) "t")
    ≡ good_token (λ n. ltb 0 n) pos for_shop (pos (1000 * second)) (token true (some sample_claims))
accepts-parse_and_validate_example =
    accepts-parse_and_validate (λ n. ltb 0 n) pos sample_parse for_shop (pos (1000 * second)) "t"
      (token true (some sample_claims)) refl

abbrev refuse_all : String → String ⊎ String
refuse_all tok = inl "token expired"

no_bearer : bearer same_text sample_request ≡ none
unfolding bearer header_get Dict.get strip_prefix
no_bearer = refl

refused_is_401_example :
    (status_of (
        perform_all blank_response
          (bearer_middleware same_text refuse_all
            (write_json (λ n. "") (λ e. []))
            created
            sample_request).calls)
      ≡ 401)
    × (bearer_middleware same_text refuse_all
          (write_json (λ n. "") (λ e. []))
          created
          sample_request
        ≡ bearer_middleware same_text refuse_all
            (write_json (λ n. "") (λ e. []))
            crashing
            sample_request)
refused_is_401_example =
    refused_is_401 same_text refuse_all (λ n. "") (λ e. []) created crashing sample_request
      (inl no_bearer)

abbrev rs256 : Keys.Token
rs256 = record { method = Keys.other_method "RS256"; kid = none }

-- A parser that asks for the key of an RS256 token and then finds everything in order.
abbrev asking : (Keys.Token → CoreError.Result String) → Duration → String → Parsed ℕ
asking key_func leeway s = elim (key_func rs256) [
  | CoreError.err e ↦ Parsed.parse_error
  | CoreError.ok key ↦ token true (some sample_claims)
]

asking-AsksForKey :
    (key_func : Keys.Token → CoreError.Result String) (s : String) (t : Keys.Token)
    (e : CoreError.Error)
    → some rs256 ≡ some t
    → key_func t ≡ CoreError.err e
    → asking key_func (pos second) s ≡ Parsed.parse_error
asking-AsksForKey key_func s t e same no_key =
    let key : key_func rs256 ≡ CoreError.err e =
      ap key_func (some-injective rs256 t same) ∙ no_key in
    rw (key, asking) refl

hmac_refuses_others_example :
    Keys.verify (λ n. ltb 0 n) pos asking for_shop (Keys.hmac_key "secret") (pos 0) "a.b.c"
    ≡ inl err_invalid_signature
hmac_refuses_others_example =
    Keys.hmac_refuses_others (λ n. ltb 0 n) pos asking for_shop (λ s. some rs256) "secret" (pos 0)
      "a.b.c" rs256 "RS256" asking-AsksForKey refl refl
