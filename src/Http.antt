-- ===== src/Http.antt =====
-- What the packages use of net/http: header maps, requests with the values of their context, and
-- the calls that a handler makes on its http.ResponseWriter.
pub mod Response
use hwhkit_go.Prelude.{
  ℕ, zero, suc, ◌+◌, ◌-◌, ◌*◌, ◌/◌, ◌%◌, ◌^◌, ◌≤◌, ◌<◌, String, ◌≡◌, refl, sym, ap, ◌∙◌, subst, ◌≢◌,
  ◌↔◌, ◌⊎◌, inl, inr, Bool, true, false, not, ◌&&◌, ◌||◌, Option, none, some, List, [], ◌∷◌, ◌++◌,
  map, append-nil, append_assoc, arith, eq_iff, ltb, leb, Eq, ◌==◌, nat_eq, string_eq,
  if◌then◌else◌, ltb→lt, lt→ltb, leb→le, tests, Bool-cases, Option-cases, is_some, or_else, length,
  get_elem?, set, any, all, length-append, length-map, All, All-append,
}
use hwhkit_go.Prelude.Text.{Bytes}
use hwhkit_go.Prelude.Dict
use hwhkit_go.Prelude.Dict.{Dict}

-- Header names are canonical; a name has a list of values.
abbrev pub Header : Type 0
Header = Dict (List String)

-- `h.Get(k)`: the first value, or "".
unfoldable pub header_get : String → Header → String
header_get k h = elim (Dict.get k h) [ none ↦ "" | some vs ↦ elim vs [ [] ↦ "" | v ∷ rest ↦ v ] ]

unfoldable pub header_set : String → String → Header → Header
header_set k v h = Dict.put k (v ∷ []) h

unfoldable pub header_add : String → String → Header → Header
header_add k v h = elim (Dict.get k h) [
  | none ↦ Dict.put k (v ∷ []) h
  | some vs ↦ Dict.put k (vs ++ v ∷ []) h
]

-- The values that the packages put into a request's context, each under a key of its own type. `C`
-- is the type of a verified token's claims.
pub data ContextValue (C : Type 0) : Type 0 where
  request_id : String → ContextValue C
  tenant_id : String → ContextValue C
  claims : C → ContextValue C

pub record Request (C : Type 0) : Type 0 where
  pub method : String
  pub path : String
  pub header : Header
  pub remote_addr : String
  pub context : List (ContextValue C)

-- `r.WithContext(context.WithValue(r.Context(), key, v))`; the newest value is found first.
unfoldable pub with_value : {C : Type 0} → ContextValue C → Request C → Request C
with_value v r = record r { context = v ∷ r.context }

-- A call on the ResponseWriter: Header().Set, Header().Add, WriteHeader and Write.
pub data Call : Type 0 where
  set_header add_header : String → String → Call
  write_header : ℕ → Call
  write : Bytes → Call

-- What a handler does: its calls in order, and whether it ends by a panic.
pub record Run : Type 0 where
  pub calls : List Call
  pub panicked : Bool

abbrev pub Handler : Type 0 → Type 0
Handler C = Request C → Run

abbrev pub Middleware : Type 0 → Type 0
Middleware C = Handler C → Handler C

-- The calls `before`, then the run.
abbrev pub after : List Call → Run → Run
after before r = record r { calls = before ++ r.calls }
