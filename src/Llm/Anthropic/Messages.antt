-- ===== src/Llm/Anthropic/Messages.antt =====
-- What the Messages API is sent of a conversation.
use hwhkit_go.Prelude.{
  String, ◌≡◌, refl, inl, inr, false, List, [], ◌∷◌, ◌++◌, append-nil, append_assoc, arith, eq_iff,
  ◌==◌, nat_eq, string_eq, if◌then◌else◌, Bool-cases,
}
use hwhkit_go.Prelude.Text.{append, concat, join}
use text.Mathlib.TextLemmas.{append-eq-nil_iff}
use text.Mathlib.TextLemmas
use hwhkit_go.Llm.Types.{role_system, role_assistant, ChatMessage}
use hwhkit_go.Llm.Anthropic.{AnthropicMsg, split_system_from, split_system_anthropic}

-- The contents of the system messages.
abbrev pub system_texts : List ChatMessage → List String
system_texts [] = []
system_texts (m ∷ ms) =
    let rest = system_texts ms in if m.role == role_system then m.content ∷ rest else rest

-- The other messages, in order; a role other than the assistant's is sent as the user's.
abbrev pub turns : List ChatMessage → List AnthropicMsg
turns [] = []
turns (m ∷ ms) =
    let rest = turns ms in
    if m.role == role_system
    then rest
    else record {
      role = (if m.role == role_assistant then "assistant" else "user");
      content = m.content;
    }
      ∷ rest

-- Empty texts before the first one that is not.
abbrev pub skip_empty : List String → List String
skip_empty [] = []
skip_empty (s ∷ l) = let rest = skip_empty l in if s == "" then rest else s ∷ l

abbrev glued : String → List String → String
glued system l = if system == "" then join "\n\n" (skip_empty l) else join "\n\n" (system ∷ l)

join_glued :
    (a b : String) (l : List String)
    → join "\n\n" (concat (a ∷ "\n\n" ∷ b ∷ []) ∷ l) ≡ join "\n\n" (a ∷ b ∷ l)
join_glued a b [] = refl
join_glued a b (c ∷ l) =
    rw
      (
        TextLemmas.append_assoc a (append "\n\n" b) (append "\n\n" (join "\n\n" (c ∷ l))),
        TextLemmas.append_assoc "\n\n" b (append "\n\n" (join "\n\n" (c ∷ l))),
      )
      refl

append_empty : (s t : String) → append s t ≡ "" → s ≡ ""
append_empty s t e = (append-eq-nil_iff.0 e).0

glued_nonempty : (a b : String) → (a == "") ≡ false → (concat (a ∷ "\n\n" ∷ b ∷ []) == "") ≡ false
glued_nonempty a b h =
    ground (
      arith,
      eq_iff a "",
      eq_iff (concat (a ∷ "\n\n" ∷ b ∷ [])) "",
      append_empty a (append "\n\n" b),
    )

split_from :
    (system : String) (wire : List AnthropicMsg) (ms : List ChatMessage)
    → split_system_from system wire ms ≡ (glued system (system_texts ms), wire ++ turns ms)
unfolding split_system_from
split_from system wire [] = ground (arith, append-nil wire, eq_iff system "")
split_from system wire (m ∷ ms) = elim (Bool-cases (m.role == role_system)) [
  | inl sys ↦
      rw (sys, split_system_from)
        (elim (Bool-cases (system == "")) [
          | inl empty ↦ rw (empty, split_from m.content wire ms) (ground arith)
          | inr there ↦
              rw
                (
                  there,
                  split_from (concat (system ∷ "\n\n" ∷ m.content ∷ [])) wire ms,
                  glued_nonempty system m.content there,
                  join_glued system m.content (system_texts ms),
                )
                refl
        ])
  | inr turn ↦
      rw (turn, split_system_from)
        (elim (Bool-cases (m.role == role_assistant)) [
          | inl a ↦
              rw
                (
                  a,
                  split_from system
                      (wire ++ record { role = "assistant"; content = m.content } ∷ []) ms,
                  append_assoc wire (record { role = "assistant"; content = m.content } ∷ [])
                      (turns ms),
                )
                refl
          | inr u ↦
              rw
                (
                  u,
                  split_from system (wire ++ record { role = "user"; content = m.content } ∷ []) ms,
                  append_assoc wire (record { role = "user"; content = m.content } ∷ []) (turns ms),
                )
                refl
        ])
]

-- The messages that are not the system's are sent in order, the assistant's as the assistant's and
-- all others as the user's; the system text is the contents of the system messages joined by blank
-- lines, the empty ones before the first other one left out.
split_system_lem :
    (ms : List ChatMessage)
    → split_system_anthropic ms ≡ (join "\n\n" (skip_empty (system_texts ms)), turns ms)
unfolding split_system_anthropic
split_system_lem ms = split_from "" [] ms
