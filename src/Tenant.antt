-- ===== src/Tenant.antt =====
-- tenant/tenant.go. A pointer `*T` is an option, with `none` for nil; a TenantID is a string.
pub mod Interleaving
pub mod Scopes
use hwhkit_go.Prelude.{
  ℕ, zero, suc, ◌+◌, ◌-◌, ◌*◌, ◌/◌, ◌%◌, ◌^◌, ◌≤◌, ◌<◌, String, ◌≡◌, refl, sym, ap, ◌∙◌, subst, ◌≢◌,
  ◌↔◌, ◌⊎◌, inl, inr, Bool, true, false, not, ◌&&◌, ◌||◌, Option, none, some, List, [], ◌∷◌, ◌++◌,
  map, append-nil, append_assoc, arith, eq_iff, ltb, leb, Eq, ◌==◌, nat_eq, string_eq,
  if◌then◌else◌, ltb→lt, lt→ltb, leb→le, tests, Bool-cases, Option-cases, is_some, or_else, length,
  get_elem?, set, any, all, length-append, length-map, All, All-append,
}
use hwhkit_go.Prelude.Dict
use hwhkit_go.Prelude.Dict.{Dict}
use hwhkit_go.Http.{
  Request, Handler, Middleware, ContextValue, request_id, tenant_id, claims, with_value, header_get,
}

-- FromContext: the newest value under the key, if it is not the empty ID.
unfoldable pub tenant_from_context : {C : Type 0} → List (ContextValue C) → Option String
tenant_from_context [] = none
tenant_from_context (tenant_id t ∷ vs) = if t == "" then none else some t
tenant_from_context (request_id i ∷ vs) = tenant_from_context vs
tenant_from_context (claims c ∷ vs) = tenant_from_context vs

unfoldable pub with_tenant : {C : Type 0} → String → Request C → Request C
with_tenant tid r = with_value (tenant_id tid) r

-- The factory returns a pointer, and whether there was an error.
pub record Scope (T : Type 0) : Type 0 where
  pub values : Dict (Option T)
  pub factory : Option (String → Option T × Bool)

unfoldable pub new_scope : {T : Type 0} → Scope T
new_scope = record { values = []; factory = none }

unfoldable pub new_lazy_scope : {T : Type 0} → (String → Option T × Bool) → Scope T
new_lazy_scope factory = record { values = []; factory = some factory }

unfoldable pub put_value : {T : Type 0} → Scope T → String → Option T → Scope T
put_value s tid v = record s { values = Dict.put tid v s.values }

unfoldable pub remove_value : {T : Type 0} → Scope T → String → Scope T
remove_value s tid = record s { values = Dict.remove tid s.values }

-- The part of Get behind the factory, under the lock: a value that another goroutine has stored in
-- the meantime is returned in place of the new one.
unfoldable pub store_made : {T : Type 0} → Scope T → String → Option T → (Option T × Bool) × Scope T
store_made s tid v = elim (Dict.get tid s.values) [
  | some existing ↦ ((existing, true), s)
  | none ↦ ((v, true), record s { values = Dict.put tid v s.values })
]

-- What Get does with what the factory returned.
abbrev pub after_factory :
    {T : Type 0} → Scope T → String → Option T × Bool → (Option T × Bool) × Scope T
after_factory s tid (v, failed) =
    if failed || not (is_some v) then ((none, false), s) else store_made s tid v

-- Get, with nothing in between the read and the store.
unfoldable pub get_value : {T : Type 0} → Scope T → String → (Option T × Bool) × Scope T
unfolding store_made
get_value s tid = elim (Dict.get tid s.values) [
  | some v ↦ ((v, true), s)
  | none ↦ elim s.factory [ none ↦ ((none, false), s) | some make ↦ after_factory s tid (make tid) ]
]

-- ByHeader, with `none` for `false`.
unfoldable pub tenant_by_header : {C : Type 0} → String → Request C → Option String
tenant_by_header name r =
    let v = header_get (if name == "" then "X-Tenant-Id" else name) r.header in
    if v == "" then none else some v

unfoldable pub extractor_middleware :
    {C : Type 0} → (Request C → Option String) → String → Middleware C
unfolding with_tenant
extractor_middleware e default_tenant next r =
    let tid = or_else (e r) default_tenant in
    next (if not (tid == "") then with_tenant tid r else r)
