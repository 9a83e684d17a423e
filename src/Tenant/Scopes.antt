-- ===== src/Tenant/Scopes.antt =====
-- What Get of a scope returns the next time, and to goroutines that run at the same time.
use hwhkit_go.Prelude.{
  String, ◌≡◌, inl, inr, true, Option, some, arith, eq_iff, ◌==◌, nat_eq, string_eq, if◌then◌else◌,
  Option-cases, or_else,
}
use hwhkit_go.Prelude.Dict
use hwhkit_go.Prelude.Dict.{Dict, get-put, get-remove}
use hwhkit_go.Http.{Request, Handler, with_value}
use hwhkit_go.Tenant.{
  extractor_middleware, tenant_from_context, with_tenant, Scope, store_made, get_value,
}

-- Two goroutines that both found no value and both made one: the second to store returns the value
-- of the first, and leaves the scope as the first has left it.
pub store_made_once :
    {T : Type 0} (s : Scope T) (tid : String) (v w : Option T)
    → store_made (store_made s tid v).1 tid w ≡ ((store_made s tid v).0, (store_made s tid v).1)
unfolding store_made
store_made_once s tid v w =
    ground (arith, Option-cases (Dict.get tid s.values), get-put tid tid v s.values, eq_iff tid tid)

-- When Get finds or makes a value, the scope that it leaves has that value for the tenant and the
-- values that it had for every other one.
pub get_value_keeps :
    {T : Type 0} (s : Scope T) (tid other : String) (v : Option T)
    → (get_value s tid).0 ≡ (v, true)
    → (Dict.get tid (get_value s tid).1.values ≡ some v)
      × (Dict.get other (get_value s tid).1.values
          ≡ (if tid == other then some v else Dict.get other s.values))
unfolding get_value store_made
get_value_keeps s tid other v e = elim (Option-cases (Dict.get tid s.values)) [
  | inr (old, there) ↦ ground (arith, eq_iff tid other)
  | inl missing ↦ elim (Option-cases s.factory) [
    | inl eager ↦ ground arith
    | inr (make, lazy) ↦
        let (made, failed) = make tid in
        ground (
          arith,
          get-put tid tid made s.values,
          get-put tid other made s.values,
          eq_iff tid other,
          eq_iff tid tid,
        )
  ]
]

abbrev pub effective : {C : Type 0} → (Request C → Option String) → String → Request C → Request C
effective e default_tenant r =
    let tid = or_else (e r) default_tenant in if tid == "" then r else with_tenant tid r

-- The next handler runs for the tenant that the extractor finds, or for the default tenant if it
-- finds none; if that is the empty ID, it runs on the request as it came.
pub extractor_middleware_lem :
    {C : Type 0} (e : Request C → Option String) (default_tenant : String) (next : Handler C)
    (r : Request C)
    → (extractor_middleware e default_tenant next r ≡ next (effective e default_tenant r))
      × (tenant_from_context (effective e default_tenant r).context ≡ (
          if or_else (e r) default_tenant == ""
          then tenant_from_context r.context
          else some (or_else (e r) default_tenant)))
unfolding extractor_middleware tenant_from_context with_value with_tenant
extractor_middleware_lem e default_tenant next r = ground arith
