-- ===== src/Production/Chain/Panics.antt =====
-- What becomes of a route that panics.
use hwhkit_go.Prelude.{
  String, ◌≡◌, refl, true, false, ◌||◌, List, [], ◌∷◌, ◌++◌, ◌==◌, nat_eq, string_eq, arith, ◌∙◌,
  All, if◌then◌else◌, Bool-cases, inl, inr, ap,
}
use hwhkit_go.Prelude.Int.{ℤ, Duration, is_positive, pos}
use hwhkit_go.Http.{header_get, Handler, Request, Call, with_value, after, ContextValue}
use hwhkit_go.Middleware.Cors
use hwhkit_go.Middleware.AccessLog.{access_log, http_metrics}
use hwhkit_go.Middleware.Limits
use hwhkit_go.Middleware.RequestId.{request_id_middleware, request_id_header, chosen_id}
use hwhkit_go.Http.Response.{blank_response, perform_all, status_of}
use hwhkit_go.Config.AppConfig.{ServerConfig, handler_timeout}
use hwhkit_go.Middleware.Recover.{recover, recover-sends_500, sends}
use hwhkit_go.Production.Serve.{layers, Layer}
use hwhkit_go.Production.Chain.{root_handler, Parts, middleware_of, chain, access_log, http_metrics}
use hwhkit_go.Middleware.Cors.{cors, cors_calls}

sends-append : (xs ys : List Call) → sends (xs ++ ys) ≡ (sends xs || sends ys)
sends-append [] ys = refl
sends-append (Call.set_header k v ∷ xs) ys = sends-append xs ys
sends-append (Call.add_header k v ∷ xs) ys = sends-append xs ys
sends-append (Call.write_header c ∷ xs) ys = refl
sends-append (Call.write b ∷ xs) ys = refl

sends-cors_calls :
    (itoa : ℤ → String) (cfg : Cors.CorsConfig) (origin : String)
    → sends (cors_calls itoa cfg origin) ≡ false
unfolding cors_calls
sends-cors_calls itoa cfg origin = ground arith

-- A request for which the handler panics and has sent nothing.
abbrev pub Dies : {C : Type 0} → Handler C → Request C → Type 0
Dies next r = ((next r).panicked ≡ true) × (sends (next r).calls ≡ false)

-- The handler does so for every request that is not a preflight.
abbrev pub Dead : {C : Type 0} → Handler C → Type 0
Dead {C} next = (r : Request C) → (r.method == "OPTIONS") ≡ false → Dies next r

module _ {C : Type 0} (parts : Parts C) where
  -- The middleware of other packages passes a panic on, as http.TimeoutHandler documents, and has
  -- itself sent nothing then; http.MaxBytesReader changes the body of a request only.
  pub record PassesOn : Type 0 where
    pub compressor_dies :
        (level : ℤ) (types : List String) (next : Handler C)
        → Dead next
        → Dead (parts.compressor level types next)
    pub timeout_dies :
        (next : Handler C) (d : Duration) → Dead next → Dead (parts.timeout_handler next d)
    pub same_method : (n : ℤ) (r : Request C) → (parts.max_bytes n r).method ≡ r.method

  -- The layers below Recover.
  abbrev IsBelow : Layer → Type 0
  IsBelow Layer.request_id = ⊥
  IsBelow Layer.recover = ⊥
  IsBelow _ = Unit {0}

  Dead-cors : (next : Handler C) → Dead next → Dead (cors parts.itoa Cors.default_cors next)
  unfolding cors
  Dead-cors next dead r other =
      let (bad, quiet) = dead r other in
      rw (other) (
        bad,
        sends-append (cors_calls parts.itoa Cors.default_cors (header_get "Origin" r.header))
              (next r).calls
            ∙ (rw
                (
                  sends-cors_calls parts.itoa Cors.default_cors (header_get "Origin" r.header),
                  quiet,
                )
                refl),
      )

  module _ (passes : PassesOn) where
    Dead-middleware_of :
        (l : Layer) (next : Handler C) → IsBelow l → Dead next → Dead (middleware_of parts l next)
    unfolding middleware_of access_log http_metrics Limits.compress Limits.body_limit Limits.timeout
    Dead-middleware_of Layer.request_id next b dead r other = absurd b
    Dead-middleware_of Layer.recover next b dead r other = absurd b
    Dead-middleware_of Layer.access_log next b dead r other = dead r other
    Dead-middleware_of Layer.default_cors next b dead r other = Dead-cors next dead r other
    Dead-middleware_of Layer.http_metrics next b dead r other = dead r other
    Dead-middleware_of (Layer.compress level) next b dead r other =
        passes.compressor_dies _ _ next dead r other
    Dead-middleware_of (Layer.body_limit n) next b dead r other =
        elim (Bool-cases (is_positive n)) [
          | inl on ↦ rw (on) (dead (parts.max_bytes n r) (rw (passes.same_method n r) other))
          | inr off ↦ rw (off) (dead r other)
        ]
    Dead-middleware_of (Layer.timeout d) next b dead r other = elim (Bool-cases (is_positive d)) [
      | inl on ↦ rw (on) (passes.timeout_dies next d dead r other)
      | inr off ↦ rw (off) (dead r other)
    ]

    Dead-chain :
        (ls : List Layer) (routes : Handler C)
        → All IsBelow ls
        → Dead routes
        → Dead (chain parts ls routes)
    unfolding chain
    Dead-chain [] routes b dead = dead
    Dead-chain (l ∷ ls) routes b dead =
        Dead-middleware_of l (chain parts ls routes) b.0 (Dead-chain ls routes b.1 dead)

  -- The layers of Serve that Recover covers.
  abbrev covered_layers : ServerConfig → List Layer
  covered_layers cfg =
      Layer.access_log
      ∷ Layer.default_cors
      ∷ Layer.compress (pos 5)
      ∷ Layer.body_limit cfg.body_limit_bytes
      ∷ ((if is_positive (handler_timeout cfg)
            then Layer.timeout (handler_timeout cfg) ∷ []
            else [])
          ++ Layer.http_metrics ∷ [])

  covered-IsBelow : (cfg : ServerConfig) → All IsBelow (covered_layers cfg)
  covered-IsBelow cfg = elim (Bool-cases (is_positive (handler_timeout cfg))) [
    | inl on ↦ rw (on) (tt, (tt, (tt, (tt, (tt, (tt, tt))))))
    | inr off ↦ rw (off) (tt, (tt, (tt, (tt, (tt, tt)))))
  ]

  -- A route that panics before it has sent anything, behind the middleware of Serve: the handler of
  -- the server does not panic, and the client gets status 500, if the request is no preflight and the
  -- middleware of other packages passes panics on.
  pub root_500 :
      (cfg : ServerConfig) (routes : Handler C) (r : Request C)
      → PassesOn
      → Dead routes
      → (r.method == "OPTIONS") ≡ false
      → ((root_handler parts cfg routes r).panicked ≡ false)
        × (status_of (perform_all blank_response (root_handler parts cfg routes r).calls) ≡ 500)
  unfolding root_handler chain layers middleware_of request_id_middleware with_value recover
  root_500 cfg routes r passes dead other =
      let mid = chain parts (covered_layers cfg) routes in
      let id = chosen_id parts.new_v7 parts.new_string r in
      let r' = with_value (ContextValue.request_id id) r in
      let before = Call.set_header request_id_header id ∷ [] in
      let (bad, quiet) =
        Dead-chain passes (covered_layers cfg) routes (covered-IsBelow cfg) dead r' other in
      let (safe, status) =
        recover-sends_500 parts.status_text parts.encode (λ x. after before (mid x)) r' bad quiet in
      let same : (root_handler parts cfg routes r).calls
          ≡ (recover parts.status_text parts.encode (λ x. after before (mid x)) r').calls =
        rw (bad) refl in
      ((rw (bad) refl), ap (λ cs. status_of (perform_all blank_response cs)) same ∙ status)
