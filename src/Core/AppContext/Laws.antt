-- ===== src/Core/AppContext/Laws.antt =====
-- The application context as two independent maps.
use hwhkit_go.Prelude.{
  ℕ, String, some, Bool, true, false, ◌==◌, string_eq, if◌then◌else◌, ◌≡◌, refl, arith, eq_iff,
}
use hwhkit_go.Prelude.Dict.{get-put}
use hwhkit_go.Core.AppContext.{Pointer, AppContext, type_key, insert, get, insert_named, get_named}

-- Get[U] after Insert[T] of a pointer finds that pointer if U is T, and what it found before if
-- not; GetNamed is not changed by Insert.
pub get-insert :
    (c : AppContext) (t u : String) (t_interface u_interface : Bool) (address : ℕ) (key : String)
    → (get (insert c t t_interface address) u u_interface
        ≡ (if t == u then some address else get c u u_interface))
      × (get_named (insert c t t_interface address) key ≡ get_named c key)
unfolding get insert get_named type_key
get-insert c t u true true address key = (
  ground (arith, get-put t u (record { elem_type = t; address = address }) c.typed, eq_iff t u),
  refl,
)
get-insert c t u true false address key = (
  ground (arith, get-put t u (record { elem_type = t; address = address }) c.typed, eq_iff t u),
  refl,
)
get-insert c t u false true address key = (
  ground (arith, get-put t u (record { elem_type = t; address = address }) c.typed, eq_iff t u),
  refl,
)
get-insert c t u false false address key = (
  ground (arith, get-put t u (record { elem_type = t; address = address }) c.typed, eq_iff t u),
  refl,
)

-- GetNamed after InsertNamed finds the new value under its key, and the other keys and every typed
-- entry are as before.
pub get_named-insert_named :
    (c : AppContext) (k j t : String) (is_interface : Bool) (v : Pointer)
    → (get_named (insert_named c k v) j ≡ (if k == j then some v else get_named c j))
      × (get (insert_named c k v) t is_interface ≡ get c t is_interface)
unfolding get_named insert_named get
get_named-insert_named c k j t is_interface v = (get-put k j v c.named, refl)
