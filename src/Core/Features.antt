-- ===== src/Core/Features.antt =====
-- core/runtime/features.go. The Go map may be nil, and so may the pointer to the Features.
pub mod Laws
pub mod Sets
use hwhkit_go.Prelude.{
  String, Bool, true, false, Option, none, some, List, [], ◌∷◌, is_some, if◌then◌else◌,
}
use hwhkit_go.Prelude.Dict
use hwhkit_go.Prelude.Dict.{Dict}
use hwhkit_go.Prelude.Sort.{sort_strings}

pub record Features : Type 0 where
  pub enabled : Option (Dict (Unit {0}))

unfoldable pub new : Features
new = record { enabled = some [] }

unfoldable pub enable : Features → String → Features
enable f key = elim f.enabled [
  | none ↦ record { enabled = some (Dict.put key tt []) }
  | some m ↦ record { enabled = some (Dict.put key tt m) }
]

unfoldable pub enable_if : Features → String → Bool → Features
enable_if f key on = if on then enable f key else f

abbrev enabled_map : Features → Dict (Unit {0})
enabled_map f = elim f.enabled [ none ↦ [] | some m ↦ m ]

unfoldable pub contains : Option Features → String → Bool
contains none key = false
contains (some f) key = elim f.enabled [ none ↦ false | some m ↦ is_some (Dict.get key m) ]

-- The keys, sorted.
unfoldable pub keys : Option Features → List String
keys none = []
keys (some f) = sort_strings (Dict.keys (enabled_map f))

unfoldable pub known_features : List String
known_features = "postgres" ∷ "redis" ∷ "mongodb" ∷ "nats" ∷ "qdrant" ∷ "neo4j" ∷ "s3" ∷ "oss" ∷ []
