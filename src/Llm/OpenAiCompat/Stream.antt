-- ===== src/Llm/OpenAiCompat/Stream.antt =====
-- The event stream of pumpOpenAISSE.
use hwhkit_go.Prelude.{
  String, ◌≡◌, refl, ◌⊎◌, Bool, ◌&&◌, List, [], ◌∷◌, ◌++◌, append_assoc, arith, ◌==◌, nat_eq,
  string_eq, if◌then◌else◌, any,
}
use hwhkit_go.Prelude.Text.{strip_prefix}
use hwhkit_go.Llm.OpenAiCompat.{StreamChoice, pump_openai_sse, event_chunks}

-- The line that ends the stream.
abbrev is_done_line : String → Bool
is_done_line line =
    let (is_data, payload) = strip_prefix "data: " line in is_data && (payload == "[DONE]")

-- The chunks of a list of lines are those of its first lines followed by those of the rest, and by
-- nothing if the first lines have the line that ends the stream.
pump_streams :
    (unmarshal : String → String ⊎ List StreamChoice) (before behind : List String)
    → pump_openai_sse unmarshal (before ++ behind)
      ≡ pump_openai_sse unmarshal before
        ++ (if any is_done_line before then [] else pump_openai_sse unmarshal behind)
unfolding pump_openai_sse
pump_streams unmarshal [] behind = refl
pump_streams unmarshal (line ∷ before) behind = ground (
  arith,
  pump_streams unmarshal before behind,
  append_assoc (event_chunks (unmarshal (strip_prefix "data: " line).1))
      (pump_openai_sse unmarshal before)
      (if any is_done_line before then [] else pump_openai_sse unmarshal behind),
)
