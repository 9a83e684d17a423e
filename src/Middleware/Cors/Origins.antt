-- ===== src/Middleware/Cors/Origins.antt =====
-- Which origins CORS allows, and what it does with a preflight request.
use hwhkit_go.Prelude.{
  String, ◌≡◌, refl, Bool, false, ◌||◌, List, [], ◌∷◌, arith, ◌==◌, nat_eq, string_eq,
  if◌then◌else◌,
}
use hwhkit_go.Prelude.Int.{ℤ}
use hwhkit_go.Prelude.Text.{join}
use hwhkit_go.Http.{Call, set_header}
use hwhkit_go.Middleware.Cors.{CorsConfig, match_origin, cors_calls}

-- The values that calls set for a header.
abbrev pub values_set : String → List Call → List String
values_set name [] = []
values_set name (set_header k v ∷ cs) =
    let rest = values_set name cs in if k == name then v ∷ rest else rest
values_set name (_ ∷ cs) = values_set name cs

abbrev pub listed : String → List String → Bool
listed origin [] = false
listed origin (a ∷ allowed) = a == origin || listed origin allowed

match_origin-eq-listed :
    (allowed : List String) (origin : String) → match_origin allowed origin ≡ listed origin allowed
unfolding match_origin
match_origin-eq-listed [] origin = refl
match_origin-eq-listed (a ∷ allowed) origin = ground (arith, match_origin-eq-listed allowed origin)

-- Access-Control-Allow-Origin is set at most once: never for a request with no Origin, to "*" if the
-- list of allowed origins is written "*", and otherwise to the request's origin if the list has it.
pub allow_origin_lem :
    (itoa : ℤ → String) (cfg : CorsConfig) (origin : String)
    → values_set "Access-Control-Allow-Origin" (cors_calls itoa cfg origin) ≡ (
        if origin == ""
        then []
        else if join "," cfg.allowed_origins == "*"
        then "*" ∷ []
        else if listed origin cfg.allowed_origins
        then origin ∷ []
        else [])
unfolding cors_calls
allow_origin_lem itoa cfg origin = ground (arith, match_origin-eq-listed cfg.allowed_origins origin)
