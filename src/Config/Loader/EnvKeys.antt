-- ===== src/Config/Loader/EnvKeys.antt =====
-- The keys that environment variables are given, against the paths that they are to set.
use Prim.Native.Char.{Char, code}
use text.Mathlib.TextLemmas.{nil-append, cons-append}
use hwhkit_go.Prelude.{
  String, ◌≡◌, refl, sym, ap, ◌∙◌, Bool, true, false, not, ◌&&◌, List, [], ◌∷◌, arith, ◌==◌, nat_eq,
  string_eq, All,
}
use hwhkit_go.Prelude.Text.{append, join, strip_prefix, strip_prefix-append}
use hwhkit_go.Config.Loader.{Library, env_prefix, to_dots, trim_prefix, map_key}

-- A path segment that can stand in a variable's name: it has no "__" and does not end in "_".
unfoldable pub is_segment : String → Bool
is_segment String.[] = true
is_segment (String.◌∷◌ c String.[]) = not (code c == 95)
is_segment (String.◌∷◌ c (String.◌∷◌ d s)) =
    let rest = is_segment (String.◌∷◌ d s) in not (code c == 95 && code d == 95) && rest

two_underscores : (t : String) → append "__" t ≡ String.◌∷◌ "_" (String.◌∷◌ "_" t)
two_underscores t = rw (cons-append "_" "_" t, cons-append "_" "" t, nil-append t) refl

to_dots_kept :
    (c d : Char) (s : String)
    → (code c == 95 && code d == 95) ≡ false
    → to_dots (String.◌∷◌ c (String.◌∷◌ d s)) ≡ String.◌∷◌ c (to_dots (String.◌∷◌ d s))
unfolding to_dots
to_dots_kept c d s other = rw (other) refl

to_dots_separator :
    (t : String) → to_dots (String.◌∷◌ "_" (String.◌∷◌ "_" t)) ≡ append "." (to_dots t)
unfolding to_dots
to_dots_separator t = refl

is_segment-cons :
    (c d : Char) (s : String)
    → is_segment (String.◌∷◌ c (String.◌∷◌ d s)) ≡ true
    → ((code c == 95 && code d == 95) ≡ false) × (is_segment (String.◌∷◌ d s) ≡ true)
unfolding is_segment
is_segment-cons c d s h = (ground arith, ground arith)

is_segment_last :
    (c : Char) → is_segment (String.◌∷◌ c String.[]) ≡ true → (code c == 95 && true) ≡ false
unfolding is_segment
is_segment_last c h = ground arith

-- A segment in front of a separator is kept, and the separator becomes a dot.
to_dots_segment :
    (s t : String)
    → is_segment s ≡ true
    → to_dots (append s (append "__" t)) ≡ append s (append "." (to_dots t))
to_dots_segment String.[] t h =
    rw (nil-append (append "__" t), nil-append (append "." (to_dots t)), two_underscores t)
      (to_dots_separator t)
to_dots_segment (String.◌∷◌ c String.[]) t h =
    rw
      (
        cons-append c "" (append "__" t),
        nil-append (append "__" t),
        cons-append c "" (append "." (to_dots t)),
        nil-append (append "." (to_dots t)),
        two_underscores t,
      )
      (to_dots_kept c "_" (String.◌∷◌ "_" t) (is_segment_last c h)
        ∙ ap (String.◌∷◌ c) (to_dots_separator t))
to_dots_segment (String.◌∷◌ c (String.◌∷◌ d s)) t h =
    let (other, rest) = is_segment-cons c d s h in
    rw
      (
        cons-append c (String.◌∷◌ d s) (append "__" t),
        cons-append c (String.◌∷◌ d s) (append "." (to_dots t)),
        cons-append d s (append "__" t),
      )
      (to_dots_kept c d (append s (append "__" t)) other
        ∙ ap (String.◌∷◌ c) (
            ap to_dots (sym (cons-append d s (append "__" t)))
            ∙ to_dots_segment (String.◌∷◌ d s) t rest))

-- A segment alone is kept.
to_dots_alone : (s : String) → is_segment s ≡ true → to_dots s ≡ s
to_dots_alone String.[] h = unfold to_dots in refl
to_dots_alone (String.◌∷◌ c String.[]) h = unfold to_dots in refl
to_dots_alone (String.◌∷◌ c (String.◌∷◌ d s)) h =
    let (other, rest) = is_segment-cons c d s h in
    to_dots_kept c d s other ∙ ap (String.◌∷◌ c) (to_dots_alone (String.◌∷◌ d s) rest)

pub to_dots-join :
    (ss : List String) → All (λ s. is_segment s ≡ true) ss → to_dots (join "__" ss) ≡ join "." ss
to_dots-join [] h = unfold to_dots in refl
to_dots-join (s ∷ []) h = to_dots_alone s h.0
to_dots-join (s ∷ t ∷ ss) h =
    to_dots_segment s (join "__" (t ∷ ss)) h.0
    ∙ ap (λ r. append s (append "." r)) (to_dots-join (t ∷ ss) h.1)

-- TrimPrefix of a string that begins with the prefix.
trim_prefix-append : (t : String) → trim_prefix env_prefix (append env_prefix t) ≡ t
unfolding trim_prefix strip_prefix
trim_prefix-append t = rw (strip_prefix-append env_prefix t) refl

module _ {F K Client : Type 0} (lib : Library F K Client) where
  -- A variable that is named HWHKIT__ and then the segments of a path, joined by "__", has the path
  -- joined by dots as its key, in lower case, if no segment has "__" in it or "_" at its end.
  pub map_key-join :
      (ss : List String)
      → All (λ s. is_segment s ≡ true) ss
      → map_key lib (append env_prefix (join "__" ss)) ≡ lib.to_lower (join "." ss)
  unfolding map_key
  map_key-join ss h =
      ap (λ s. lib.to_lower (to_dots s)) (trim_prefix-append (join "__" ss))
      ∙ ap lib.to_lower (to_dots-join ss h)
