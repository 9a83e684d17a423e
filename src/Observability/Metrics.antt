-- ===== src/Observability/Metrics.antt =====
-- observability/metrics.go, with the use that Serve (hwhkit/production/server.go) makes of it. A
-- registry of Prometheus is a type `R`; MustRegister of some collectors gives `none` for its panic.
use hwhkit_go.Prelude.{
  ℕ, String, ◌≡◌, refl, ap, ◌∙◌, Bool, true, false, ◌||◌, Option, none, some, List, [], ◌∷◌, ◌++◌,
  ◌==◌, nat_eq, string_eq,
}
use hwhkit_go.BuildInfo
use hwhkit_go.BuildInfo.{Info, Variables}

-- The collectors that the package makes. `build_info_gauge` has the build's data as its constant
-- labels and the value 1.
pub data Collector : Type 0 where
  process_collector go_collector : Collector
  build_info_gauge : Info → Collector
  http_requests_total http_request_duration_seconds : Collector

-- The names of the partitions of the two HTTP metrics.
unfoldable pub labels_of : Collector → List String
labels_of http_requests_total = "method" ∷ "route" ∷ "status" ∷ []
labels_of http_request_duration_seconds = "method" ∷ "route" ∷ []
labels_of _ = []

pub record Prometheus (R : Type 0) : Type 0 where
  pub new_registry : R
  pub must_register : List Collector → R → Option R

infixl 5 ◌>>=◌
abbrev ◌>>=◌ : {A B : Type 0} → Option A → (A → Option B) → Option B
none >>= f = none
some a >>= f = f a

module _ {R : Type 0} (prometheus : Prometheus R) (vars : Variables)
    (runtime_version : String) where
  unfoldable pub init_metrics : Option R
  init_metrics =
      prometheus.must_register (process_collector ∷ go_collector ∷ []) prometheus.new_registry
      >>= prometheus.must_register (build_info_gauge (BuildInfo.get vars runtime_version) ∷ [])

  unfoldable pub register_http_metrics : R → Option R
  register_http_metrics =
      prometheus.must_register (http_requests_total ∷ http_request_duration_seconds ∷ [])

  -- What Serve does with the registry of the application, `none` if it has none: the one that the
  -- application has afterwards, or the panic.
  unfoldable pub prepare : Option R → Option R
  unfolding init_metrics register_http_metrics
  prepare none = init_metrics >>= register_http_metrics
  prepare (some reg) = register_http_metrics reg

-- A registry knows a collector by its metrics' names, which are different ones for these five.
abbrev pub identity : Collector → ℕ
identity process_collector = 0
identity go_collector = 1
identity (build_info_gauge i) = 2
identity http_requests_total = 3
identity http_request_duration_seconds = 4

abbrev pub is_held : Collector → List Collector → Bool
is_held c [] = false
is_held c (d ∷ ds) = identity c == identity d || is_held c ds

-- One of the collectors is held already, or comes twice.
abbrev pub clashes : List Collector → List Collector → Bool
clashes [] held = false
clashes (c ∷ cs) held = is_held c held || clashes cs (held ++ c ∷ [])

-- What Prometheus documents: a new registry is empty, and MustRegister panics exactly if a collector
-- is registered already; `held` are the collectors that a registry has.
pub record RegistersOnce {R : Type 0} (prometheus : Prometheus R) (held : R → List Collector)
    : Type 0 where
  pub starts_empty : held prometheus.new_registry ≡ []
  pub refuses :
      (cs : List Collector) (r : R)
      → clashes cs (held r) ≡ true
      → prometheus.must_register cs r ≡ none
  pub accepts :
      (cs : List Collector) (r : R)
      → clashes cs (held r) ≡ false
      → (r' : R) × (prometheus.must_register cs r ≡ some r') × (held r' ≡ held r ++ cs)

module _ {R : Type 0} (prometheus : Prometheus R) (vars : Variables) (runtime_version : String)
    (held : R → List Collector) where
  abbrev pub all_collectors : List Collector
  all_collectors =
      process_collector
      ∷ go_collector
      ∷ build_info_gauge (BuildInfo.get vars runtime_version)
      ∷ http_requests_total
      ∷ http_request_duration_seconds
      ∷ []

  -- Serve of an application without a registry does not panic there and gives it one with the five
  -- collectors, in this order; but a second Serve of the same application panics, since it
  -- registers the two HTTP metrics in the same registry again.
  pub metrics_once :
      RegistersOnce prometheus held
      → (r : R) × (prepare prometheus vars runtime_version none ≡ some r)
        × (held r ≡ all_collectors)
        × (prepare prometheus vars runtime_version (some r) ≡ none)
  unfolding prepare init_metrics register_http_metrics
  metrics_once once =
      let runtime = process_collector ∷ go_collector ∷ [] in
      let gauge = build_info_gauge (BuildInfo.get vars runtime_version) ∷ [] in
      let http = http_requests_total ∷ http_request_duration_seconds ∷ [] in
      let (r1, made1, has1) =
        once.accepts runtime prometheus.new_registry (rw (once.starts_empty) refl) in
      let held1 : held r1 ≡ runtime = has1 ∙ ap (λ l. l ++ runtime) once.starts_empty in
      let (r2, made2, has2) = once.accepts gauge r1 (rw (held1) refl) in
      let held2 : held r2 ≡ runtime ++ gauge = has2 ∙ ap (λ l. l ++ gauge) held1 in
      let (r3, made3, has3) = once.accepts http r2 (rw (held2) refl) in
      let held3 : held r3 ≡ all_collectors = has3 ∙ ap (λ l. l ++ http) held2 in
      (r3, rw (made1, made2, made3) refl, held3, once.refuses http r3 (rw (held3) refl))
