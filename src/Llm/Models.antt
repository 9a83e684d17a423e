-- ===== src/Llm/Models.antt =====
-- integration/llm/backend.go: SplitModel and the interface of a backend.
use hwhkit_go.Prelude.{
  ℕ, suc, ◌<◌, String, ◌≡◌, refl, sym, ◌≢◌, ◌||◌, Option, none, some, List, arith, leb, ◌==◌,
  nat_eq, string_eq, if◌then◌else◌,
}
use hwhkit_go.Prelude.Text.{append}
use hwhkit_go.Prelude.Slices.{
  text_length, take_text, drop_text, index_byte, index-append, take-append, drop-append,
  length-append_text,
}
use text.Mathlib.TextLemmas.{cons-append, append_assoc}
use hwhkit_go.Llm.Types.{
  ChatMessage, ChatOptions, ChatResponse, StreamChunk, EmbedOptions, EmbedResponse, Result,
}

-- '/'
abbrev pub slash : ℕ
slash = 47

-- `none` for `ok == false`. `none` of IndexByte is -1, which the first test refuses.
unfoldable pub split_model : String → Option (String × String)
split_model full = elim (index_byte slash full) [
  | none ↦ none
  | some idx ↦
      if leb idx 0 || (suc idx == text_length full)
      then none
      else some (take_text idx full, drop_text (suc idx) full)
]

-- The interface of a backend. The chunks are those that its channel yields before it closes.
pub record Backend (F : Type 0) : Type 0 where
  pub key : String
  pub chat : String → List ChatMessage → ChatOptions F → Result ChatResponse
  pub chat_stream : String → List ChatMessage → ChatOptions F → Result (List StreamChunk)
  pub embed : String → List String → EmbedOptions → Result (EmbedResponse F)

slash_first : (name : String) → index_byte slash (append "/" name) ≡ some 0
unfolding index_byte
slash_first name = rw (cons-append "/" "" name) refl

slash_length : (name : String) → text_length (append "/" name) ≡ suc (text_length name)
unfolding text_length
slash_length name = rw (length-append_text "/" name) (omega arith)

length_nonempty : (s : String) → s ≢ "" → 0 < text_length s
unfolding text_length
length_nonempty String.[] h = elim (h refl) [ ]
length_nonempty (String.◌∷◌ c s) h = omega arith

drop_slash :
    (prefix name : String)
    → drop_text (suc (text_length prefix)) (append prefix (append "/" name)) ≡ name
unfolding text_length
drop_slash prefix name =
    let whole = drop-append (append prefix "/") name in
    let n : text_length (append prefix "/") ≡ suc (text_length prefix) =
      rw (length-append_text prefix "/") (omega arith) in
    rw (sym (append_assoc prefix "/" name), sym n) whole

-- A model whose prefix has no slash in it, with prefix and name not empty, splits into the two; the
-- name can have slashes.
pub split_roundtrip :
    (prefix name : String)
    → index_byte slash prefix ≡ none
    → prefix ≢ ""
    → name ≢ ""
    → split_model (append prefix (append "/" name)) ≡ some (prefix, name)
unfolding split_model
split_roundtrip prefix name h p n =
    let found = index-append slash prefix (append "/" name) h (slash_first name) in
    rw (found, split_model)
      (rw
        (
          take-append prefix (append "/" name),
          drop_slash prefix name,
          length-append_text prefix (append "/" name),
          slash_length name,
        )
        (ground (arith, length_nonempty prefix p, length_nonempty name n)))
