-- ===== src/Middleware/Cors.antt =====
-- hwhkit/middleware/cors.go.
pub mod Itoa
pub mod Origins
use hwhkit_go.Prelude.{
  ℕ, zero, suc, ◌+◌, ◌-◌, ◌*◌, ◌/◌, ◌%◌, ◌^◌, ◌≤◌, ◌<◌, String, ◌≡◌, refl, sym, ap, ◌∙◌, subst, ◌≢◌,
  ◌↔◌, ◌⊎◌, inl, inr, Bool, true, false, not, ◌&&◌, ◌||◌, Option, none, some, List, [], ◌∷◌, ◌++◌,
  map, append-nil, append_assoc, arith, eq_iff, ltb, leb, Eq, ◌==◌, nat_eq, string_eq,
  if◌then◌else◌, ltb→lt, lt→ltb, leb→le, tests, Bool-cases, Option-cases, is_some, or_else, length,
  get_elem?, set, any, all, length-append, length-map, All, All-append,
}
use hwhkit_go.Prelude.Int.{ℤ, pos, negsuc, is_positive}
use hwhkit_go.Prelude.Text.{join}
use hwhkit_go.Http.{
  Handler, Middleware, Request, Run, Call, write_header, set_header, add_header, header_get, after,
}

pub record CorsConfig : Type 0 where
  pub allowed_origins : List String
  pub allowed_methods : List String
  pub allowed_headers : List String
  pub max_age_seconds : ℤ

unfoldable pub default_cors : CorsConfig
default_cors = record {
  allowed_origins = "*" ∷ [];
  allowed_methods = "GET" ∷ "POST" ∷ "PUT" ∷ "PATCH" ∷ "DELETE" ∷ "OPTIONS" ∷ [];
  allowed_headers =
      "Authorization" ∷ "Content-Type" ∷ "X-Request-Id" ∷ "Idempotency-Key" ∷ "X-Tenant-Id" ∷ [];
  max_age_seconds = pos 86400;
}

unfoldable pub match_origin : List String → String → Bool
match_origin [] origin = false
match_origin (a ∷ allowed) origin = if a == origin then true else match_origin allowed origin

-- The header calls for a request with an Origin. `itoa` writes the maximal age.
module _ (itoa : ℤ → String) where
  abbrev pub origin_calls : CorsConfig → String → List Call
  origin_calls cfg origin =
      if join "," cfg.allowed_origins == "*"
      then set_header "Access-Control-Allow-Origin" "*" ∷ []
      else if match_origin cfg.allowed_origins origin
      then set_header "Access-Control-Allow-Origin" origin ∷ add_header "Vary" "Origin" ∷ []
      else []

  abbrev pub age_calls : CorsConfig → List Call
  age_calls cfg =
      if is_positive cfg.max_age_seconds
      then set_header "Access-Control-Max-Age" (itoa cfg.max_age_seconds) ∷ []
      else []

  unfoldable pub cors_calls : CorsConfig → String → List Call
  cors_calls cfg origin =
      if origin == ""
      then []
      else origin_calls cfg origin
        ++ (set_header "Access-Control-Allow-Methods" (join ", " cfg.allowed_methods)
            ∷ set_header "Access-Control-Allow-Headers" (join ", " cfg.allowed_headers)
            ∷ age_calls cfg)

  unfoldable pub cors : {C : Type 0} → CorsConfig → Middleware C
  cors cfg next r = after (cors_calls cfg (header_get "Origin" r.header)) (
      if r.method == "OPTIONS"
      then record { calls = write_header 204 ∷ []; panicked = false }
      else next r)
