-- ===== src/Core/AppContext/Typed.antt =====
-- The type assertion of Get in a context that only New, Insert and InsertNamed have made.
use hwhkit_go.Prelude.{
  ℕ, String, ◌≡◌, refl, sym, ap, ◌∙◌, Bool, true, false, Option, none, some, ◌==◌, nat_eq,
  string_eq, if◌then◌else◌, Bool-cases, inl, inr, eq_iff, Option-cases,
}
use mathlib.Core.Option.{none-ne-some, some-injective}
use hwhkit_go.Prelude.Dict
use hwhkit_go.Prelude.Dict.{get-put}
use hwhkit_go.Core.AppContext.{
  AppContext, Pointer, new, insert, insert_named, get, must_get, type_key,
}

-- The contexts that a program can make.
pub data Made : AppContext → Type 0 where
  made_new : Made new
  made_insert :
      {c : AppContext} (t : String) (is_interface : Bool) (address : ℕ)
      → Made c
      → Made (insert c t is_interface address)
  made_insert_named :
      {c : AppContext} (key : String) (v : Pointer) → Made c → Made (insert_named c key v)

-- Each typed entry is a pointer to a value of the type that is its key.
abbrev IsTyped : AppContext → Type 0
IsTyped c = (t : String) (v : Pointer) → Dict.get t c.typed ≡ some v → v.elem_type ≡ t

type_key_lem : (t : String) (is_interface : Bool) → type_key t is_interface ≡ t
unfolding type_key
type_key_lem t true = refl
type_key_lem t false = refl

IsTyped-insert :
    (c : AppContext) (t : String) (is_interface : Bool) (address : ℕ)
    → IsTyped c
    → IsTyped (insert c t is_interface address)
unfolding insert
IsTyped-insert c t is_interface address typed u v found =
    let p : Pointer = record { elem_type = t; address = address } in
    let there : (if t == u then some p else Dict.get u c.typed) ≡ some v =
      sym (get-put t u p c.typed)
      ∙ ap (λ k. Dict.get u (Dict.put k p c.typed)) (sym (type_key_lem t is_interface))
      ∙ found in
    elim (Bool-cases (t == u)) [
      | inl same ↦
          ap (λ q. q.elem_type) (sym (some-injective p v (rw (same) at there)))
          ∙ (eq_iff t u).0 same
      | inr other ↦ typed u v (rw (other) at there)
    ]

Made-IsTyped : {c : AppContext} → Made c → IsTyped c
unfolding new insert_named Dict.get
Made-IsTyped made_new t v found = absurd (none-ne-some v found)
Made-IsTyped (made_insert {c} u is_interface address m) t v found =
    IsTyped-insert c u is_interface address (Made-IsTyped m) t v found
Made-IsTyped (made_insert_named key w m) t v found = Made-IsTyped m t v found

-- The address of the entry of a type.
abbrev pub address_of : Option Pointer → Option ℕ
address_of none = none
address_of (some v) = some v.address

asserted : String → Option Pointer → Option ℕ
asserted t none = none
asserted t (some v) = if v.elem_type == t then some v.address else none

get-asserted :
    (c : AppContext) (t : String) (is_interface : Bool)
    → get c t is_interface ≡ asserted t (Dict.get t c.typed)
unfolding get asserted type_key
get-asserted c t true = refl
get-asserted c t false = refl

-- In a context that only New, Insert and InsertNamed have made the type assertion of Get never
-- fails: Get, and MustGet, find the address of the entry of the type, whenever there is one, also
-- for interface types.
pub get_never_mistyped :
    {c : AppContext} (t : String) (is_interface : Bool)
    → Made c
    → (get c t is_interface ≡ address_of (Dict.get t c.typed))
      × (must_get c t is_interface ≡ get c t is_interface)
unfolding must_get asserted
get_never_mistyped {c} t is_interface m = elim (Option-cases (Dict.get t c.typed)) [
  | inl missing ↦ (get-asserted c t is_interface ∙ (rw (missing) refl), refl)
  | inr (v, found) ↦
      let same = (eq_iff v.elem_type t).1 (Made-IsTyped m t v found) in
      (get-asserted c t is_interface ∙ (rw (found, same, asserted) refl), refl)
]
