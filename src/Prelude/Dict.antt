-- ===== src/Prelude/Dict.antt =====
-- Go's `map[string]V`, as an association list. The order of iteration, which Go leaves open, is
-- that of the list; no theorem rests on it.
use Prim.Native.String.{String}
use hwhkit_go.Prelude.Tests.{◌==◌, string_eq, if◌then◌else◌}
use mathlib.Core.Path.{◌≡◌, refl}
use mathlib.Core.Option.{Option, none, some}
use mathlib.Core.List.{List, [], ◌∷◌}
use native.Mathlib.Omega.{arith}
use text.Mathlib.TextEquality.{eq_iff}

abbrev pub Dict {ℓ} : Type ℓ → Type ℓ
Dict V = List (String × V)

module _ {ℓ} {V : Type ℓ} where
  -- `v, ok := m[k]`
  unfoldable pub get : String → Dict V → Option V
  get k [] = none
  get k ((j, v) ∷ m) = if j == k then some v else get k m

  -- `m[k] = v`
  unfoldable pub put : String → V → Dict V → Dict V
  put k v [] = (k, v) ∷ []
  put k v ((j, w) ∷ m) = if j == k then (k, v) ∷ m else (j, w) ∷ put k v m

  -- `delete(m, k)`
  unfoldable pub remove : String → Dict V → Dict V
  remove k [] = []
  remove k ((j, w) ∷ m) = let rest = remove k m in if j == k then rest else (j, w) ∷ rest

  unfoldable pub keys : Dict V → List String
  keys [] = []
  keys ((j, w) ∷ m) = j ∷ keys m

  pub get-put :
      (k j : String) (v : V) (m : Dict V) → get j (put k v m) ≡ (if k == j then some v else get j m)
  unfolding get put
  get-put k j v [] = refl
  get-put k j v ((i, w) ∷ m) = ground (arith, eq_iff k j, eq_iff i k, eq_iff i j, get-put k j v m)

  pub get-remove :
      (k j : String) (m : Dict V) → get j (remove k m) ≡ (if k == j then none else get j m)
  unfolding get remove
  get-remove k j [] = ground arith
  get-remove k j ((i, w) ∷ m) = ground (arith, eq_iff k j, eq_iff i k, eq_iff i j, get-remove k j m)

pub ruleset dict_laws = (get-put, get-remove)
