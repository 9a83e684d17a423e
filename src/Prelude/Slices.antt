-- ===== src/Prelude/Slices.antt =====
-- Positions in Go strings. A character stands for a byte here, as it does in an ASCII text.
use Prim.Native.Char.{code}
use Prim.Native.String.{String}
use Prim.Native.Nat.{ℕ, zero, suc, ◌+◌, ◌≤◌}
use mathlib.Core.Path.{◌≡◌, refl, ap, ◌∙◌}
use mathlib.Core.Bool.{◌&&◌}
use mathlib.Core.Option.{Option, none, some}
use native.Mathlib.Omega.{arith}
use text.Mathlib.TextLemmas.{nil-append, cons-append}
use hwhkit_go.Prelude.Tests.{◌==◌, nat_eq, string_eq, if◌then◌else◌, Option-cases}
use hwhkit_go.Prelude.Text.{append}

-- `len(s)`
unfoldable pub text_length : String → ℕ
text_length String.[] = 0
text_length (String.◌∷◌ c s) = suc (text_length s)

-- `s[:n]`
unfoldable pub take_text : ℕ → String → String
take_text zero s = ""
take_text (suc n) String.[] = ""
take_text (suc n) (String.◌∷◌ c s) = String.◌∷◌ c (take_text n s)

-- `s[n:]`
unfoldable pub drop_text : ℕ → String → String
drop_text zero s = s
drop_text (suc n) String.[] = ""
drop_text (suc n) (String.◌∷◌ c s) = drop_text n s

abbrev bump : Option ℕ → Option ℕ
bump none = none
bump (some n) = some (suc n)

-- strings.IndexByte, with `none` for -1.
unfoldable pub index_byte : ℕ → String → Option ℕ
index_byte b String.[] = none
index_byte b (String.◌∷◌ c s) =
    let rest = index_byte b s in if code c == b then some 0 else bump rest

-- strings.TrimRight with a cutset of one byte.
unfoldable pub trim_right : ℕ → String → String
trim_right b String.[] = ""
trim_right b (String.◌∷◌ c s) =
    let rest = trim_right b s in if (code c == b) && (rest == "") then "" else String.◌∷◌ c rest

-- strings.TrimLeft with a cutset of one byte.
unfoldable pub trim_left : ℕ → String → String
trim_left b String.[] = ""
trim_left b (String.◌∷◌ c s) =
    let rest = trim_left b s in if code c == b then rest else String.◌∷◌ c s

pub take-append : (s t : String) → take_text (text_length s) (append s t) ≡ s
unfolding take_text text_length
take-append String.[] t = refl
take-append (String.◌∷◌ c s) t =
    rw (cons-append c s t, take_text) (ap (String.◌∷◌ c) (take-append s t))

pub drop-append : (s t : String) → drop_text (text_length s) (append s t) ≡ t
unfolding drop_text text_length
drop-append String.[] t = nil-append t
drop-append (String.◌∷◌ c s) t = rw (cons-append c s t, drop_text) (drop-append s t)

pub take-drop : (n : ℕ) (s : String) → append (take_text n s) (drop_text n s) ≡ s
unfolding take_text drop_text
take-drop zero s = nil-append s
take-drop (suc n) String.[] = refl
take-drop (suc n) (String.◌∷◌ c s) =
    cons-append c (take_text n s) (drop_text n s) ∙ ap (String.◌∷◌ c) (take-drop n s)

pub take-length : (n : ℕ) (s : String) → text_length (take_text n s) ≤ n
unfolding take_text text_length
take-length zero s = omega arith
take-length (suc n) String.[] = omega arith
take-length (suc n) (String.◌∷◌ c s) = let h = take-length n s in omega arith

pub length-append_text : (s t : String) → text_length (append s t) ≡ text_length s + text_length t
unfolding text_length
length-append_text String.[] t = rw (nil-append t) (ground arith)
length-append_text (String.◌∷◌ c s) t =
    rw (cons-append c s t) (ground (arith, length-append_text s t))

-- The first occurrence of `b` behind a text without it.
pub index-append :
    (b : ℕ) (p s : String)
    → index_byte b p ≡ none
    → index_byte b s ≡ some 0
    → index_byte b (append p s) ≡ some (text_length p)
unfolding index_byte text_length
index-append b String.[] s h e = rw (nil-append s) e
index-append b (String.◌∷◌ c p) s h e =
    rw (cons-append c p s) (ground (arith, h, index-append b p s, e, Option-cases (index_byte b p)))
