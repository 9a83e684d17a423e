-- ===== src/Prelude/Text.antt =====
-- The operations of Go's package strings that the program uses.
use Prim.Native.Char.{code}
use Prim.Native.String
use Prim.Native.String.{String}
use text.Mathlib.TextLemmas.{nil-append, cons-append}
use hwhkit_go.Prelude.Tests.{ltb, ◌==◌, nat_eq, if◌then◌else◌, is_some}
use Prim.Native.Nat.{ℕ}
use mathlib.Core.Path.{◌≡◌, refl}
use mathlib.Core.Bool.{Bool, true, false}
use mathlib.Core.Logic.{◌⊎◌, inl, inr}
use mathlib.Core.List.{List, [], ◌∷◌}
use native.Mathlib.Omega.{arith}
use text.Mathlib.Text.{find?}

abbrev pub append : String → String → String
append s t = String.◌++◌ s t

-- `a + b + c`.
abbrev pub concat : List String → String
concat [] = ""
concat (s ∷ []) = s
concat (s ∷ t ∷ l) = append s (concat (t ∷ l))

-- strings.Join.
abbrev pub join : String → List String → String
join sep [] = ""
join sep (s ∷ []) = s
join sep (s ∷ t ∷ l) = append s (append sep (join sep (t ∷ l)))

-- strings.Contains.
abbrev pub contains : String → String → Bool
contains s t = is_some (find? s t)

-- strings.TrimPrefix as an option: the rest of `s` behind `prefix`, if it begins so.
unfoldable pub strip_prefix : String → String → Bool × String
strip_prefix String.[] s = (true, s)
strip_prefix (String.◌∷◌ c p) String.[] = (false, "")
strip_prefix (String.◌∷◌ c p) (String.◌∷◌ d s) =
    if code c == code d then strip_prefix p s else (false, "")

-- The order of Go's `<` on strings, by bytes, which for valid UTF-8 is the order by code points.
unfoldable pub text_leb : String → String → Bool
text_leb String.[] t = true
text_leb (String.◌∷◌ c s) String.[] = false
text_leb (String.◌∷◌ c s) (String.◌∷◌ d t) =
    let rest = text_leb s t in
    if ltb (code c) (code d) then true else if code c == code d then rest else false

pub text_leb_total : (s t : String) → (text_leb s t ≡ true) ⊎ (text_leb t s ≡ true)
unfolding text_leb
text_leb_total String.[] t = inl refl
text_leb_total (String.◌∷◌ c s) String.[] = inr refl
text_leb_total (String.◌∷◌ c s) (String.◌∷◌ d t) = ground (arith, text_leb_total s t)

-- A body or a raw reply: a list of bytes.
abbrev pub Bytes : Type 0
Bytes = List ℕ

-- The bytes of an ASCII text.
abbrev pub codes : String → Bytes
codes String.[] = []
codes (String.◌∷◌ c s) = code c ∷ codes s

pub strip_prefix-append : (p t : String) → strip_prefix p (append p t) ≡ (true, t)
unfolding strip_prefix
strip_prefix-append String.[] t = rw (nil-append t) refl
strip_prefix-append (String.◌∷◌ c p) t =
    rw (cons-append c p t, strip_prefix) (ground (arith, strip_prefix-append p t))
