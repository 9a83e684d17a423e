-- ===== src/Core/Features/Laws.antt =====
-- What a set of features answers after Enable, and that Keys is the sorted set.
use hwhkit_go.Prelude.{
  String, Option, none, some, [], ◌∷◌, is_some, ◌||◌, ◌==◌, string_eq, ◌≡◌, refl, ◌∙◌, arith,
}
use hwhkit_go.Prelude.Dict.{Dict, get-put, get, put, keys as dict_keys}
use hwhkit_go.Prelude.Sort.{IsSorted, occurs, occurs-sort_strings, sort_strings-IsSorted}
use hwhkit_go.Core.Features.{Features, enable, contains, keys}

-- After Enable(key) a feature is contained exactly if it is that key or was contained before.
pub contains-enable :
    (f : Features) (key j : String)
    → contains (some (enable f key)) j ≡ (key == j || contains (some f) j)
unfolding contains enable get put
contains-enable f key j =
    elim f.enabled
      as (λ m.
        contains (some (enable (record { enabled = m }) key)) j
        ≡ (key == j || contains (some (record { enabled = m })) j)) [
          | none ↦ ground arith
          | some m ↦ ground (arith, get-put key j tt m)
        ]

occurs-keys : (j : String) (m : Dict (Unit {0})) → occurs j (dict_keys m) ≡ is_some (get j m)
unfolding occurs dict_keys get
occurs-keys j [] = refl
occurs-keys j ((i, v) ∷ m) = ground (arith, occurs-keys j m)

keys_of :
    (e : Option (Dict (Unit {0}))) (j : String)
    → IsSorted (keys (some (record { enabled = e })))
      × (occurs j (keys (some (record { enabled = e })))
          ≡ contains (some (record { enabled = e })) j)
unfolding keys contains dict_keys occurs
keys_of none j = (sort_strings-IsSorted [], occurs-sort_strings j [])
keys_of (some m) j =
    (sort_strings-IsSorted (dict_keys m), occurs-sort_strings j (dict_keys m) ∙ occurs-keys j m)

-- Keys is sorted, and a string occurs in it exactly if Contains says so; a nil *Features has none.
pub keys_sorted_contains :
    (f : Option Features) (j : String) → IsSorted (keys f) × (occurs j (keys f) ≡ contains f j)
keys_sorted_contains none j = unfold keys contains occurs in (tt, refl)
keys_sorted_contains (some f) j = keys_of f.enabled j
