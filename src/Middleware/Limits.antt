-- ===== src/Middleware/Limits.antt =====
-- hwhkit/middleware/bodylimit.go, timeout.go and compress.go. `max_bytes` puts http.MaxBytesReader
-- round the body, `timeout_handler` is http.TimeoutHandler and `compressor` is chi's Compress.
use hwhkit_go.Prelude.{String, List, [], ◌∷◌, nat_eq, string_eq, if◌then◌else◌}
use hwhkit_go.Prelude.Int.{ℤ, pos, is_positive, Duration}
use hwhkit_go.Http.{Handler, Middleware, Request}

unfoldable pub body_limit : {C : Type 0} → (ℤ → Request C → Request C) → ℤ → Middleware C
body_limit max_bytes n next r = if is_positive n then next (max_bytes n r) else next r

unfoldable pub timeout : {C : Type 0} → (Handler C → Duration → Handler C) → Duration → Middleware C
timeout timeout_handler d next = if is_positive d then timeout_handler next d else next

unfoldable pub compress : {C : Type 0} → (ℤ → List String → Middleware C) → ℤ → Middleware C
compress compressor level =
    compressor (if is_positive level then level else pos 5)
      ("application/json" ∷ "text/html" ∷ "text/plain" ∷ "application/javascript" ∷ "text/css" ∷ [])
