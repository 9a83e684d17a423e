-- ===== src/Llm/Anthropic.antt =====
-- integration/llm/anthropic.go, with parameters like those of OpenAiCompat.
pub mod Messages
use hwhkit_go.Prelude.{
  ℕ, zero, suc, ◌+◌, ◌-◌, ◌*◌, ◌/◌, ◌%◌, ◌^◌, ◌≤◌, ◌<◌, String, ◌≡◌, refl, sym, ap, ◌∙◌, subst, ◌≢◌,
  ◌↔◌, ◌⊎◌, inl, inr, Bool, true, false, not, ◌&&◌, ◌||◌, Option, none, some, List, [], ◌∷◌, ◌++◌,
  map, append-nil, append_assoc, arith, eq_iff, ltb, leb, Eq, ◌==◌, nat_eq, string_eq,
  if◌then◌else◌, ltb→lt, lt→ltb, leb→le, tests, Bool-cases, Option-cases, is_some, or_else, length,
  get_elem?, set, any, all, length-append, length-map, All, All-append,
}
use hwhkit_go.Prelude.Int.{ℤ, pos, Duration, is_positive}
use hwhkit_go.Prelude.Text.{append, concat, strip_prefix}
use hwhkit_go.Prelude.Slices.{trim_right}
use hwhkit_go.Http.{header_set}
use hwhkit_go.Llm.Types.{
  Role, role_system, role_assistant, ChatMessage, ChatOptions, ChatResponse, EmbedOptions,
  EmbedResponse, StreamChunk, text_chunk, done_chunk, err_chunk, Result, ok, failed, decode,
  transport, invalid_request, plain_error,
}
use hwhkit_go.Llm.Models.{Backend, slash}
use hwhkit_go.Llm.Wire.{WireRequest, Exchange, exchange, build_error}
use hwhkit_go.Llm.OpenAiCompat.{
  default_op_timeout, if_positive, accept_stream, stop_if_empty, text_of, done_of,
}

pub record AnthropicBackend : Type 0 where
  pub api_key : String
  pub base_url : String
  pub op_timeout : Duration

unfoldable pub new_anthropic : String → String → Duration → AnthropicBackend
new_anthropic api_key base_url op_timeout = record {
  api_key = api_key;
  base_url = trim_right slash (if base_url == "" then "https://api.anthropic.com" else base_url);
  op_timeout = default_op_timeout op_timeout;
}

abbrev pub anthropic_key : String
anthropic_key = "anthropic"

pub record AnthropicMsg : Type 0 where
  pub role : String
  pub content : String

pub record AnthropicReq (F : Type 0) : Type 0 where
  pub model : String
  pub messages : List AnthropicMsg
  pub system : String
  pub temperature : Option F
  pub max_tokens : ℤ
  pub stop_sequences : List String
  pub stream : Bool

-- A block of the content, by its fields "type" and "text" where they are strings and "" otherwise.
pub record ContentBlock : Type 0 where
  pub type_of : String
  pub text : String

pub record AnthropicResp : Type 0 where
  pub model : String
  pub content : List ContentBlock
  pub stop_reason : String
  pub input_tokens : ℤ
  pub output_tokens : ℤ

-- An event, by its "type", and the "text" and "stop_reason" of its "delta", "" where they are
-- missing.
pub record AnthropicEvent : Type 0 where
  pub type_of : String
  pub text : String
  pub stop_reason : String

pub record AnthropicJson (F : Type 0) : Type 0 where
  pub marshal_chat : AnthropicReq F → String
  pub unmarshal_chat : String → String ⊎ AnthropicResp
  pub unmarshal_event : String → String ⊎ AnthropicEvent

-- The loop of splitSystemAnthropic, from the system text and the messages so far.
unfoldable pub split_system_from :
    String → List AnthropicMsg → List ChatMessage → String × List AnthropicMsg
split_system_from system wire [] = (system, wire)
split_system_from system wire (m ∷ ms) =
    if m.role == role_system
    then split_system_from
        (if system == "" then m.content else concat (system ∷ "\n\n" ∷ m.content ∷ [])) wire ms
    else if m.role == role_assistant
    then split_system_from system (wire ++ record { role = "assistant"; content = m.content } ∷ [])
        ms
    else split_system_from system (wire ++ record { role = "user"; content = m.content } ∷ []) ms

unfoldable pub split_system_anthropic : List ChatMessage → String × List AnthropicMsg
split_system_anthropic messages = split_system_from "" [] messages

unfoldable pub build_anthropic_req :
    {F : Type 0} → (F → Bool) → String → List ChatMessage → ChatOptions F → Bool → AnthropicReq F
build_anthropic_req positive model messages opts stream =
    let (system, wire) = split_system_anthropic messages in
    record {
      model = model;
      messages = wire;
      system = system;
      temperature = if_positive positive opts.temperature;
      max_tokens = if is_positive opts.max_tokens then opts.max_tokens else pos 4096;
      stop_sequences = opts.stop;
      stream = stream;
    }

unfoldable pub build_anthropic_request :
    (String → Option String) → AnthropicBackend → String → Bool → Result WireRequest
build_anthropic_request bad_url b body stream = elim (bad_url (append b.base_url "/v1/messages")) [
  | some cause ↦ failed (build_error anthropic_key cause)
  | none ↦ ok record {
    url = append b.base_url "/v1/messages";
    header = accept_stream stream (
        header_set "content-type" "application/json"
          (header_set "anthropic-version" "2023-06-01" (header_set "x-api-key" b.api_key [])));
    body = body;
  }
]

abbrev pub anthropic_event_chunks : String ⊎ AnthropicEvent → List StreamChunk
anthropic_event_chunks (inl e) = []
anthropic_event_chunks (inr evt) =
    if evt.type_of == "content_block_delta"
    then text_of evt.text
    else if evt.type_of == "message_delta"
    then done_of (some evt.stop_reason)
    else []

abbrev pub scan_error_chunks : Option String → List StreamChunk
scan_error_chunks none = []
scan_error_chunks (some e) = err_chunk (plain_error transport anthropic_key e) ∷ []

-- pumpAnthropicSSE over the scanner's lines and its error.
unfoldable pub pump_anthropic_sse :
    (String → String ⊎ AnthropicEvent) → Option String → List String → List StreamChunk
pump_anthropic_sse unmarshal scan_error [] = scan_error_chunks scan_error
pump_anthropic_sse unmarshal scan_error (line ∷ lines) =
    let rest = pump_anthropic_sse unmarshal scan_error lines in
    let (is_data, payload) = strip_prefix "data: " line in
    if not is_data
    then rest
    else if payload == "[DONE]"
    then []
    else anthropic_event_chunks (unmarshal payload) ++ rest

-- The texts of the blocks of type "text", one behind another.
unfoldable pub text_content : List ContentBlock → String
text_content [] = ""
text_content (block ∷ blocks) =
    let rest = text_content blocks in
    if block.type_of == "text" then append block.text rest else rest

module _ {F : Type 0} (positive : F → Bool) (json : AnthropicJson F)
    (bad_url : String → Option String) (do_request : WireRequest → Exchange)
    (scan : String → List String × Option String) where
  unfoldable pub anthropic_chat :
      AnthropicBackend → String → List ChatMessage → ChatOptions F → Result ChatResponse
  anthropic_chat b model messages opts =
      let body = json.marshal_chat (build_anthropic_req positive model messages opts false) in
      elim (exchange anthropic_key do_request (build_anthropic_request bad_url b body false)) [
        | failed e ↦ failed e
        | ok raw ↦ elim (json.unmarshal_chat raw) [
          | inl e ↦ failed (plain_error decode anthropic_key e)
          | inr parsed ↦ ok record {
            content = text_content parsed.content;
            model = parsed.model;
            finish_reason = stop_if_empty parsed.stop_reason;
            usage = record {
              input_tokens = parsed.input_tokens;
              output_tokens = parsed.output_tokens;
            };
            raw = raw;
          }
        ]
      ]

  unfoldable pub anthropic_chat_stream :
      AnthropicBackend → String → List ChatMessage → ChatOptions F → Result (List StreamChunk)
  anthropic_chat_stream b model messages opts =
      let body = json.marshal_chat (build_anthropic_req positive model messages opts true) in
      elim (exchange anthropic_key do_request (build_anthropic_request bad_url b body true)) [
        | failed e ↦ failed e
        | ok raw ↦
            let (lines, scan_error) = scan raw in
            ok (pump_anthropic_sse json.unmarshal_event scan_error lines)
      ]

  abbrev pub anthropic_embed : String → List String → EmbedOptions → Result (EmbedResponse F)
  anthropic_embed model texts opts =
      failed
        (plain_error invalid_request anthropic_key "anthropic backend does not support embeddings")

  abbrev pub anthropic_backend : AnthropicBackend → Backend F
  anthropic_backend b = record {
    key = anthropic_key;
    chat = anthropic_chat b;
    chat_stream = anthropic_chat_stream b;
    embed = anthropic_embed;
  }
