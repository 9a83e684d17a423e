-- ===== src/Jwt/Acceptance.antt =====
-- Which tokens are accepted, and which requests reach the next handler.
use hwhkit_go.Prelude.{
  sym, eq_iff, Bool-cases, ℕ, zero, suc, ◌+◌, Option, String, ◌≡◌, refl, ◌⊎◌, inl, inr, Bool, true,
  false, not, ◌&&◌, ◌||◌, none, some, arith, ◌==◌, nat_eq, string_eq,
}
use hwhkit_go.Prelude.Int.{ℤ, pos, negsuc, Duration, pos_part, neg_part, add_ℤ, sub_ℕ, leb_ℤ, ltb_ℤ}
use hwhkit_go.Prelude.Dict
use hwhkit_go.Prelude.Dict.{Dict}
use hwhkit_go.Prelude.Text.{Bytes}
use hwhkit_go.Core.ApiError.{ApiError, unauthorized, write_json}
use hwhkit_go.Http.{Request, Handler}
use hwhkit_go.Http.Response.{perform_all, perform, blank_response, status_of}
use hwhkit_go.Jwt.{
  ClaimValue, Options, Parsed, parse_error, token, text, number, text_or_empty, seconds, negate,
  is_expired, check_claims, parse_and_validate, bearer, bearer_middleware,
}

abbrev pub accepts : {A B : Type 0} → A ⊎ B → Bool
accepts (inl a) = false
accepts (inr b) = true

-- The claim is no number, one that is not positive, or a time to which the clock skew is added and
-- that is then not before `now`.
abbrev pub in_time :
    {F : Type 0} → (F → Bool) → (F → ℤ) → Duration → ℤ → Option (ClaimValue F) → Bool
in_time positive to_int64 skew now (some (number exp)) =
    not (positive exp) || leb_ℤ now (add_ℤ (seconds (to_int64 exp)) skew)
in_time positive to_int64 skew now _ = true

-- Nothing is asked for, or the claim is that text.
abbrev pub as_asked : {F : Type 0} → String → Option (ClaimValue F) → Bool
as_asked wanted (some (text t)) = wanted == "" || t == wanted
as_asked wanted _ = wanted == ""

-- The demands on the claims: in time, and the audience and the issuer that are asked for.
abbrev pub meets : {F : Type 0} → (F → Bool) → (F → ℤ) → Options → ℤ → Dict (ClaimValue F) → Bool
meets positive to_int64 opts now mc =
    in_time positive to_int64 opts.clock_skew now (Dict.get "exp" mc)
    && as_asked opts.audience (Dict.get "aud" mc)
    && as_asked opts.issuer (Dict.get "iss" mc)

sub_ℕ_parts : (a b : ℕ) → pos_part (sub_ℕ a b) + b ≡ a + neg_part (sub_ℕ a b)
sub_ℕ_parts a b = ground arith

add_ℤ_parts :
    (a b : ℤ)
    → pos_part (add_ℤ a b) + (neg_part a + neg_part b)
      ≡ pos_part a + pos_part b + neg_part (add_ℤ a b)
add_ℤ_parts (pos a) (pos b) = omega arith
add_ℤ_parts (pos a) (negsuc b) = omega (arith, sub_ℕ_parts a (suc b))
add_ℤ_parts (negsuc a) (pos b) = omega (arith, sub_ℕ_parts b (suc a))
add_ℤ_parts (negsuc a) (negsuc b) = omega arith

negate_parts : (a : ℤ) → (pos_part (negate a) ≡ neg_part a) × (neg_part (negate a) ≡ pos_part a)
negate_parts (pos zero) = (refl, refl)
negate_parts (pos (suc n)) = (refl, refl)
negate_parts (negsuc n) = (refl, refl)

-- To be before the time less the skew is to be before it with the skew added.
before_skew : (e now skew : ℤ) → not (ltb_ℤ e (add_ℤ now (negate skew))) ≡ leb_ℤ now (add_ℤ e skew)
before_skew e now skew =
    let (p, n) = negate_parts skew in
    let left = add_ℤ_parts now (negate skew) in let right = add_ℤ_parts e skew in ground arith

in_time-is_expired :
    {F : Type 0} (positive : F → Bool) (to_int64 : F → ℤ) (opts : Options) (now : ℤ)
    (v : Option (ClaimValue F))
    → not (is_expired positive to_int64 opts now v)
      ≡ in_time positive to_int64 opts.clock_skew now v
in_time-is_expired positive to_int64 opts now none = refl
in_time-is_expired positive to_int64 opts now (some (text t)) = refl
in_time-is_expired positive to_int64 opts now (some ClaimValue.other) = refl
in_time-is_expired positive to_int64 opts now (some (number exp)) =
    ground (arith, before_skew (seconds (to_int64 exp)) now opts.clock_skew)

abbrev pub good_token : {F : Type 0} → (F → Bool) → (F → ℤ) → Options → ℤ → Parsed F → Bool
good_token positive to_int64 opts now parse_error = false
good_token positive to_int64 opts now (token valid none) = false
good_token positive to_int64 opts now (token valid (some mc)) =
    valid && meets positive to_int64 opts now mc

asked_nothing : (wanted : String) → (wanted == "" || "" == wanted) ≡ (wanted == "")
asked_nothing wanted = elim (Bool-cases ("" == wanted)) [
  | inr given ↦ ground (arith, given)
  | inl empty ↦ rw (sym ((eq_iff "" wanted).0 empty)) refl
]

as_asked-text :
    {F : Type 0} (wanted : String) (v : Option (ClaimValue F))
    → (wanted == "" || text_or_empty v == wanted) ≡ as_asked wanted v
as_asked-text wanted none = asked_nothing wanted
as_asked-text wanted (some (text t)) = refl
as_asked-text wanted (some (number n)) = asked_nothing wanted
as_asked-text wanted (some ClaimValue.other) = asked_nothing wanted

check_claims-meets :
    {F : Type 0} (positive : F → Bool) (to_int64 : F → ℤ) (opts : Options) (now : ℤ)
    (mc : Dict (ClaimValue F))
    → accepts (check_claims positive to_int64 opts now mc) ≡ meets positive to_int64 opts now mc
unfolding check_claims
check_claims-meets positive to_int64 opts now mc = ground (
  arith,
  in_time-is_expired positive to_int64 opts now (Dict.get "exp" mc),
  as_asked-text opts.audience (Dict.get "aud" mc),
  as_asked-text opts.issuer (Dict.get "iss" mc),
)

-- A token is accepted exactly if it parses as valid, its claims are a map, its `exp`, if that is a
-- positive number, with the clock skew added is not before the time, and its `aud` and `iss` are the
-- audience and the issuer that the options ask for, where they ask for one.
pub accepts-parse_and_validate :
    {F : Type 0} (positive : F → Bool) (to_int64 : F → ℤ) (parse : String → Parsed F)
    (opts : Options) (now : ℤ) (token_str : String) (answer : Parsed F)
    → parse token_str ≡ answer
    → accepts (parse_and_validate positive to_int64 parse opts now token_str)
      ≡ good_token positive to_int64 opts now answer
unfolding parse_and_validate
accepts-parse_and_validate positive to_int64 parse opts now token_str parse_error e =
    rw (e, parse_and_validate) refl
accepts-parse_and_validate positive to_int64 parse opts now token_str (token false none) e =
    rw (e, parse_and_validate) refl
accepts-parse_and_validate positive to_int64 parse opts now token_str (token true none) e =
    rw (e, parse_and_validate) refl
accepts-parse_and_validate positive to_int64 parse opts now token_str (token false (some mc)) e =
    rw (e, parse_and_validate) refl
accepts-parse_and_validate positive to_int64 parse opts now token_str (token true (some mc)) e =
    rw (e, parse_and_validate) (check_claims-meets positive to_int64 opts now mc)

-- A request without a bearer token, or with one that the verifier refuses, is answered by status 401
-- and does not reach the next handler: the answer is the same whatever that handler is.
pub refused_is_401 :
    {C : Type 0} (trim_space : String → String) (verify : String → String ⊎ C)
    (status_text : ℕ → String) (encode : ApiError → Bytes) (next other : Handler C) (r : Request C)
    → (bearer trim_space r ≡ none)
      ⊎ ((tok : String) × (e : String) × (bearer trim_space r ≡ some tok) × (verify tok ≡ inl e))
    → (status_of (
          perform_all blank_response
            (bearer_middleware trim_space verify (write_json status_text encode) next r).calls)
        ≡ 401)
      × (bearer_middleware trim_space verify (write_json status_text encode) next r
          ≡ bearer_middleware trim_space verify (write_json status_text encode) other r)
unfolding bearer_middleware perform_all perform write_json unauthorized
refused_is_401 trim_space verify status_text encode next other r (inl e) =
    rw (e, bearer_middleware) (ground arith, refl)
refused_is_401 trim_space verify status_text encode next other r (inr (tok, msg, b, v)) =
    rw (b, bearer_middleware) (rw v (ground arith, refl))
