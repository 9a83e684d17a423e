-- ===== src/Core/AppContext.antt =====
-- core/appctx/context.go. A reflect.Type is known by its name; a stored `any` is a pointer with its
-- dynamic type. The mutex makes each operation one step.
pub mod Laws
pub mod Typed
use hwhkit_go.Prelude.{
  ℕ, String, Option, none, some, List, [], Bool, ◌==◌, Eq, string_eq, if◌then◌else◌,
}
use hwhkit_go.Prelude.Dict
use hwhkit_go.Prelude.Dict.{Dict}

-- A pointer `*T`: the name of T, and the address.
pub record Pointer : Type 0 where
  pub elem_type : String
  pub address : ℕ

pub record AppContext : Type 0 where
  pub typed : Dict Pointer
  pub named : Dict Pointer

unfoldable pub new : AppContext
new = record { typed = []; named = [] }

-- typeKey[T]: of a T whose zero value is a nil interface reflect.TypeOf says nothing, and the type
-- is taken from a pointer to it; either way it is T.
unfoldable pub type_key : String → Bool → String
type_key t is_interface = if is_interface then t else t

-- Insert[T] of a pointer to T; `is_interface` says whether T is an interface type.
unfoldable pub insert : AppContext → String → Bool → ℕ → AppContext
unfolding type_key
insert c t is_interface address = record c {
  typed = Dict.put (type_key t is_interface) (record { elem_type = t; address = address }) c.typed;
}

-- Get[T]: the lookup and the type assertion `v.(*T)`.
unfoldable pub get : AppContext → String → Bool → Option ℕ
unfolding type_key
get c t is_interface = elim (Dict.get (type_key t is_interface) c.typed) [
  | none ↦ none
  | some v ↦ if v.elem_type == t then some v.address else none
]

-- MustGet[T], with `none` for the panic.
unfoldable pub must_get : AppContext → String → Bool → Option ℕ
unfolding get
must_get c t is_interface = get c t is_interface

unfoldable pub insert_named : AppContext → String → Pointer → AppContext
insert_named c key v = record c { named = Dict.put key v c.named }

unfoldable pub get_named : AppContext → String → Option Pointer
get_named c key = Dict.get key c.named

unfoldable pub named_keys : AppContext → List String
named_keys c = Dict.keys c.named
