-- ===== src/Core/Features/Sets.antt =====
-- Features as a set of keys: the order in which they were enabled, and how often, is forgotten.
use hwhkit_go.Prelude.{String, ◌≡◌, sym, ap, ◌∙◌, Bool, ◌||◌, some, ◌==◌, nat_eq, string_eq, arith}
use mathlib.Core.Quot
use mathlib.Core.Quot.{Quot, Quot-set}
use mathlib.Core.Bool.{Bool-set}
use hwhkit_go.Core.Features
use hwhkit_go.Core.Features.{Features}
use hwhkit_go.Core.Features.Laws.{contains-enable}

-- Two values contain the same keys.
abbrev pub SameKeys : Features → Features → Type 0
SameKeys f g = (key : String) → Features.contains (some f) key ≡ Features.contains (some g) key

abbrev pub FeatureSet : Type 0
FeatureSet = Quot SameKeys

pub SameKeys-enable :
    (key : String) (f g : Features)
    → SameKeys f g
    → SameKeys (Features.enable f key) (Features.enable g key)
SameKeys-enable key f g same j =
    contains-enable f key j ∙ ap (λ b. key == j || b) (same j) ∙ sym (contains-enable g key j)

-- Enable and Contains of a set.
unfoldable pub enable_in : String → FeatureSet → FeatureSet
enable_in key =
    Quot.lift Quot-set (λ f. Quot.mk (Features.enable f key))
      (λ f g same. Quot.sound (SameKeys-enable key f g same))

unfoldable pub contains_in : FeatureSet → String → Bool
contains_in s key =
    Quot.lift Bool-set (λ f. Features.contains (some f) key) (λ f g same. same key) s

enable_comm :
    (a b : String) (s : FeatureSet) → enable_in a (enable_in b s) ≡ enable_in b (enable_in a s)
unfolding enable_in
enable_comm a b =
    Quot.ind (λ s. Quot-set _ _)
      (λ f. Quot.sound (λ j. ground (
        arith,
        contains-enable (Features.enable f b) a j,
        contains-enable (Features.enable f a) b j,
        contains-enable f a j,
        contains-enable f b j,
      )))

enable_idem : (a : String) (s : FeatureSet) → enable_in a (enable_in a s) ≡ enable_in a s
unfolding enable_in
enable_idem a =
    Quot.ind (λ s. Quot-set _ _)
      (λ f.
        Quot.sound
          (λ j. ground (arith, contains-enable (Features.enable f a) a j, contains-enable f a j)))

contains-enable_in :
    (a key : String) (s : FeatureSet)
    → contains_in (enable_in a s) key ≡ (a == key || contains_in s key)
unfolding enable_in contains_in
contains-enable_in a key = Quot.ind (λ s. Bool-set _ _) (λ f. contains-enable f a key)

-- On sets, enabling two features commutes, enabling one twice is enabling it once, and a feature is
-- contained exactly if it was enabled last or contained before.
enable_as_set :
    (a b key : String) (s : FeatureSet)
    → (enable_in a (enable_in b s) ≡ enable_in b (enable_in a s))
      × (enable_in a (enable_in a s) ≡ enable_in a s)
      × (contains_in (enable_in a s) key ≡ (a == key || contains_in s key))
enable_as_set a b key s = (enable_comm a b s, enable_idem a s, contains-enable_in a key s)
