-- ===== src/Examples/Tenants.antt =====
-- Two goroutines that make a tenant's value at the same time.
use hwhkit_go.Prelude.{ℕ, String, ◌≡◌, refl, false, Option, some, [], nat_eq, string_eq}
use hwhkit_go.Prelude.Dict
use hwhkit_go.Tenant.{Scope, store_made}
use hwhkit_go.Tenant.Interleaving.{
  World, Phase, waiting, returned, made, missed, miss, make, store, Reach, here, next, moved,
  Reach-one_value,
}

abbrev empty_scope : Scope String
empty_scope = record { values = []; factory = some (λ tid. (some tid, false)) }

abbrev at_start : World String
at_start = record { scope = empty_scope; phase = λ i. waiting }

abbrev with_phase : World String → ℕ → Phase String → World String
with_phase w i p = record w { phase = moved w.phase i p }

abbrev both_made : World String
both_made =
    with_phase (with_phase (with_phase (with_phase at_start 0 missed) 1 missed) 0 (made "a")) 1
      (made "b")

abbrev after_store : World String → ℕ → String → World String
after_store w i v = record {
  scope = (store_made w.scope "acme" (some v)).1;
  phase =
      moved w.phase i (
        returned (store_made w.scope "acme" (some v)).0.0 (store_made w.scope "acme" (some v)).0.1);
}

abbrev both_stored : World String
both_stored = after_store (after_store both_made 1 "b") 0 "a"

both_run : Reach "acme" at_start both_stored
unfolding Dict.get
both_run =
    let s0 : Reach "acme" at_start at_start = here in
    let s1 = next s0 (miss at_start 0 refl refl) in
    let w1 = with_phase at_start 0 missed in
    let s2 = next s1 (miss w1 1 refl refl) in
    let w2 = with_phase w1 1 missed in
    let s3 = next s2 (make w2 0 "a" refl) in
    let w3 = with_phase w2 0 (made "a") in
    let s4 = next s3 (make w3 1 "b" refl) in
    let s5 = next s4 (store both_made 1 "b" refl) in
    next s5 (store (after_store both_made 1 "b") 0 "a" refl)

Reach-one_value_example :
    (◌≡◌ {A = Option String} (some "b") (some "b"))
    × (Dict.get "acme" both_stored.scope.values ≡ some (some "b"))
unfolding store_made Dict.get Dict.put
Reach-one_value_example =
    Reach-one_value "acme" {start = at_start} {w = both_stored} 0 1 (some "b") (some "b")
      (λ k. refl) both_run refl refl
