-- ===== src/RateLimit.antt =====
-- ratelimit/middleware.go.
pub mod Script
pub mod Rate
pub mod Waiting
pub mod Replies
use hwhkit_go.Prelude.{
  ℕ, zero, suc, ◌+◌, ◌-◌, ◌*◌, ◌/◌, ◌%◌, ◌^◌, ◌≤◌, ◌<◌, String, ◌≡◌, refl, sym, ap, ◌∙◌, subst, ◌≢◌,
  ◌↔◌, ◌⊎◌, inl, inr, Bool, true, false, not, ◌&&◌, ◌||◌, Option, none, some, List, [], ◌∷◌, ◌++◌,
  map, append-nil, append_assoc, arith, eq_iff, ltb, leb, Eq, ◌==◌, nat_eq, string_eq,
  if◌then◌else◌, ltb→lt, lt→ltb, leb→le, tests, Bool-cases, Option-cases, is_some, or_else, length,
  get_elem?, set, any, all, length-append, length-map, All, All-append,
}
use hwhkit_go.Prelude.Int.{
  ℤ, pos, negsuc, Duration, is_positive, second, div_trunc, of_millis, pos_part, millisecond,
  int_eq,
}
use hwhkit_go.Prelude.Text.{append}
use hwhkit_go.Core.CoreError.{Error, plain, Result, ok, err}
use hwhkit_go.Core.ApiError.{ApiError, internal, too_many_requests}
use hwhkit_go.Http.{Handler, Request, Run, Call, set_header, header_get, after}

pub record Config : Type 0 where
  pub limit : ℤ
  pub window : Duration
  pub burst : ℤ
  pub key_prefix : String

-- New: the defaults of the configuration.
unfoldable pub new_limiter : Config → Config
new_limiter cfg = record cfg {
  burst = if is_positive cfg.burst then cfg.burst else cfg.limit;
  key_prefix = if cfg.key_prefix == "" then "ratelimit:" else cfg.key_prefix;
}

unfoldable pub by_ip : {C : Type 0} → Request C → String
by_ip r = r.remote_addr

unfoldable pub by_header : {C : Type 0} → String → Request C → String
by_header name r = header_get name r.header

-- ByContextValue, where `value` is the context's value under the key, if it is a string.
unfoldable pub by_context_value : {C : Type 0} → (Request C → Option String) → Request C → String
by_context_value value r = or_else (value r) ""

-- An element of the script's reply: an int64, or anything else.
pub data ReplyValue : Type 0 where
  int64 : ℤ → ReplyValue
  other : ReplyValue

-- `v, _ := x.(int64)`
abbrev pub as_int64 : ReplyValue → ℤ
as_int64 (int64 n) = n
as_int64 other = pos 0

-- `time.Duration(waitMs) * time.Millisecond`
abbrev pub millis : ℤ → Duration
millis (pos n) = of_millis n
millis (negsuc n) = pos 0

abbrev decision_of : List ReplyValue → Result (Bool × Duration)
decision_of (a ∷ w ∷ rest) = ok (as_int64 a == pos 1, millis (as_int64 w))
decision_of _ = err (plain "malformed script reply")

-- Allow; `eval` runs the script for a Redis key at the present time.
unfoldable pub allow :
    Config → (String → Result (List ReplyValue)) → String → Result (Bool × Duration)
allow cfg eval key =
    let asked = eval (append cfg.key_prefix key) in
    if key == "" then ok (true, pos 0) else elim asked [ err e ↦ err e | ok res ↦ decision_of res ]

-- `int(retry.Seconds())+1`, in whole seconds.
abbrev pub retry_seconds : Duration → ℤ
retry_seconds retry = pos (pos_part (div_trunc retry second) + 1)

-- Middleware, with strconv.Itoa as `itoa`.
unfoldable pub limited :
    {C : Type 0}
    → Config
    → (String → Result (List ReplyValue))
    → (ApiError → List Call)
    → (ℤ → String)
    → (Request C → String)
    → Handler C
    → Handler C
unfolding allow
limited cfg eval error_calls itoa extractor next r = elim (allow cfg eval (extractor r)) [
  | err e ↦ record { calls = error_calls (internal "rate limiter unavailable"); panicked = false }
  | ok (admitted, retry) ↦
      if not admitted
      then record {
        calls =
            (if is_positive retry
              then set_header "Retry-After" (itoa (retry_seconds retry)) ∷ []
              else [])
            ++ error_calls (too_many_requests "rate limit exceeded");
        panicked = false;
      }
      else next r
]
