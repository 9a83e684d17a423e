-- ===== src/Prelude/Sort.antt =====
-- sort.Strings: the sorted rearrangement of a list of strings, by insertion.
use Prim.Native.String.{String}
use hwhkit_go.Prelude.Tests.{if◌then◌else◌, ◌==◌, string_eq, Bool-cases}
use hwhkit_go.Prelude.Text.{text_leb, text_leb_total}
use mathlib.Core.Path.{◌≡◌, refl}
use mathlib.Core.Bool.{Bool, true, false, ◌||◌}
use mathlib.Core.Logic.{inl, inr}
use mathlib.Core.List.{List, [], ◌∷◌}
use native.Mathlib.Omega.{arith}

insert : String → List String → List String
insert s [] = s ∷ []
insert s (t ∷ l) = if text_leb s t then s ∷ t ∷ l else t ∷ insert s l

unfoldable pub sort_strings : List String → List String
unfolding insert
sort_strings [] = []
sort_strings (s ∷ l) = insert s (sort_strings l)

-- Each string is at most the next one.
abbrev pub IsSorted : List String → Type 0
IsSorted [] = Unit
IsSorted (s ∷ []) = Unit
IsSorted (s ∷ t ∷ l) = (text_leb s t ≡ true) × IsSorted (t ∷ l)

-- Whether `s` occurs in the list.
unfoldable pub occurs : String → List String → Bool
occurs s [] = false
occurs s (t ∷ l) = t == s || occurs s l

occurs-insert : (s t : String) (l : List String) → occurs s (insert t l) ≡ (t == s || occurs s l)
unfolding insert occurs
occurs-insert s t [] = refl
occurs-insert s t (u ∷ l) = ground (arith, occurs-insert s t l)

pub occurs-sort_strings : (s : String) (l : List String) → occurs s (sort_strings l) ≡ occurs s l
unfolding sort_strings occurs
occurs-sort_strings s [] = refl
occurs-sort_strings s (t ∷ l) =
    ground (arith, occurs-insert s t (sort_strings l), occurs-sort_strings s l)

insert-IsSorted : (s : String) (l : List String) → IsSorted l → IsSorted (insert s l)
unfolding insert
insert-IsSorted s [] h = tt
insert-IsSorted s (t ∷ []) h = elim (Bool-cases (text_leb s t)) [
  | inl le ↦ rw le (le, tt)
  | inr gt ↦ rw gt (ground (arith, text_leb_total s t))
]
insert-IsSorted s (t ∷ u ∷ l) h = ground (arith, text_leb_total s t, insert-IsSorted s (u ∷ l) h.1)

pub sort_strings-IsSorted : (l : List String) → IsSorted (sort_strings l)
unfolding sort_strings
sort_strings-IsSorted [] = tt
sort_strings-IsSorted (s ∷ l) = insert-IsSorted s (sort_strings l) (sort_strings-IsSorted l)
