-- ===== src/Llm/OpenAiCompat.antt =====
-- integration/llm/openai_compat.go. `F` is float32 and `positive` its `> 0`. The rest of the section
-- are encoding/json on the types of this file, with an error's text, http.NewRequestWithContext as
-- the error that it returns for a URL, `client.Do`, and bufio.Scanner as the lines that it yields of
-- a body, which end early at a read error or at a line over 1 MiB, and the text of that error.
pub mod Stream
pub mod Chat
use hwhkit_go.Prelude.{
  ℕ, zero, suc, ◌+◌, ◌-◌, ◌*◌, ◌/◌, ◌%◌, ◌^◌, ◌≤◌, ◌<◌, String, ◌≡◌, refl, sym, ap, ◌∙◌, subst, ◌≢◌,
  ◌↔◌, ◌⊎◌, inl, inr, Bool, true, false, not, ◌&&◌, ◌||◌, Option, none, some, List, [], ◌∷◌, ◌++◌,
  map, append-nil, append_assoc, arith, eq_iff, ltb, leb, Eq, ◌==◌, nat_eq, string_eq,
  if◌then◌else◌, ltb→lt, lt→ltb, leb→le, tests, Bool-cases, Option-cases, is_some, or_else, length,
  get_elem?, set, any, all, length-append, length-map, All, All-append,
}
use hwhkit_go.Prelude.Int.{ℤ, pos, Duration, is_positive, second}
use hwhkit_go.Prelude.Text.{append, strip_prefix}
use hwhkit_go.Prelude.Slices.{trim_right}
use hwhkit_go.Http.{Header, header_set}
use hwhkit_go.Llm.Types.{
  ChatMessage, ChatOptions, ChatResponse, Usage, EmbedOptions, EmbedResponse, StreamChunk,
  text_chunk, done_chunk, Result, ok, failed, Error, decode, plain_error,
}
use hwhkit_go.Llm.Models.{Backend, slash}
use hwhkit_go.Llm.Wire.{WireRequest, Exchange, exchange, build_error}

pub record OpenAiCompatBackend : Type 0 where
  pub key : String
  pub api_key : String
  pub base_url : String
  pub op_timeout : Duration

unfoldable pub default_base : String → String
default_base key =
    if key == "openai"
    then "https://api.openai.com"
    else if key == "deepseek"
    then "https://api.deepseek.com"
    else if key == "moonshot"
    then "https://api.moonshot.cn"
    else if key == "ollama"
    then "http://localhost:11434"
    else "https://api.openai.com"

abbrev pub default_op_timeout : Duration → Duration
default_op_timeout d = if is_positive d then d else pos (30 * second)

-- The client's timeout is the same `op_timeout`.
unfoldable pub new_openai_compat : String → String → String → Duration → OpenAiCompatBackend
unfolding default_base
new_openai_compat key api_key base_url op_timeout = record {
  key = key;
  api_key = api_key;
  base_url = trim_right slash (if base_url == "" then default_base key else base_url);
  op_timeout = default_op_timeout op_timeout;
}

pub record OpenAiMsg : Type 0 where
  pub role : String
  pub content : String
  pub name : String

-- `none` where the pointer is nil.
pub record OpenAiReq (F : Type 0) : Type 0 where
  pub model : String
  pub messages : List OpenAiMsg
  pub temperature : Option F
  pub max_tokens : Option ℤ
  pub stop : List String
  pub stream : Bool

pub record OpenAiChoice : Type 0 where
  pub content : String
  pub finish_reason : String

pub record OpenAiResp : Type 0 where
  pub model : String
  pub choices : List OpenAiChoice
  pub prompt_tokens : ℤ
  pub completion_tokens : ℤ

-- A choice of an event: the delta's content, and the reason where its pointer is not nil.
pub record StreamChoice : Type 0 where
  pub content : String
  pub finish_reason : Option String

pub record EmbedReq : Type 0 where
  pub model : String
  pub input : List String

pub record EmbedResp (F : Type 0) : Type 0 where
  pub model : String
  pub data_items : List (List F)
  pub prompt_tokens : ℤ
  pub completion_tokens : ℤ

pub record OpenAiJson (F : Type 0) : Type 0 where
  pub marshal_chat : OpenAiReq F → String
  pub marshal_embed : EmbedReq → String
  pub unmarshal_chat : String → String ⊎ OpenAiResp
  pub unmarshal_event : String → String ⊎ List StreamChoice
  pub unmarshal_embed : String → String ⊎ EmbedResp F

abbrev pub wire_message : ChatMessage → OpenAiMsg
wire_message m = record { role = m.role; content = m.content; name = m.name }

abbrev pub if_positive : {F : Type 0} → (F → Bool) → F → Option F
if_positive positive x = if positive x then some x else none

unfoldable pub build_openai_req :
    {F : Type 0} → (F → Bool) → String → List ChatMessage → ChatOptions F → Bool → OpenAiReq F
build_openai_req positive model messages opts stream = record {
  model = model;
  messages = map wire_message messages;
  temperature = if_positive positive opts.temperature;
  max_tokens = if_positive is_positive opts.max_tokens;
  stop = opts.stop;
  stream = stream;
}

abbrev pub accept_stream : Bool → Header → Header
accept_stream stream h = if stream then header_set "accept" "text/event-stream" h else h

abbrev pub bearer_token : String → Header → Header
bearer_token api_key h =
    if not (api_key == "") then header_set "Authorization" (append "Bearer " api_key) h else h

unfoldable pub build_request :
    (String → Option String) → OpenAiCompatBackend → String → String → Bool → Result WireRequest
build_request bad_url b url_path body stream = elim (bad_url (append b.base_url url_path)) [
  | some cause ↦ failed (build_error b.key cause)
  | none ↦ ok record {
    url = append b.base_url url_path;
    header =
        accept_stream stream
          (header_set "content-type" "application/json" (bearer_token b.api_key []));
    body = body;
  }
]

-- The chunks of one event.
abbrev pub text_of : String → List StreamChunk
text_of s = if s == "" then [] else text_chunk s ∷ []

abbrev pub done_of : Option String → List StreamChunk
done_of none = []
done_of (some r) = if r == "" then [] else done_chunk r ∷ []

abbrev pub event_chunks : String ⊎ List StreamChoice → List StreamChunk
event_chunks (inl e) = []
event_chunks (inr []) = []
event_chunks (inr (c ∷ cs)) = text_of c.content ++ done_of c.finish_reason

-- pumpOpenAISSE over the scanner's lines; the scanner's error is not looked at.
unfoldable pub pump_openai_sse :
    (String → String ⊎ List StreamChoice) → List String → List StreamChunk
pump_openai_sse unmarshal [] = []
pump_openai_sse unmarshal (line ∷ lines) =
    let rest = pump_openai_sse unmarshal lines in
    let (is_data, payload) = strip_prefix "data: " line in
    if not is_data
    then rest
    else if payload == "[DONE]"
    then []
    else event_chunks (unmarshal payload) ++ rest

abbrev pub stop_if_empty : String → String
stop_if_empty finish = if finish == "" then "stop" else finish

abbrev pub chat_response : String → String → OpenAiResp → Result ChatResponse
chat_response key raw parsed = elim parsed.choices [
  | [] ↦ failed (plain_error decode key "response has no choices")
  | c ∷ cs ↦ ok record {
    content = c.content;
    model = parsed.model;
    finish_reason = stop_if_empty c.finish_reason;
    usage = record {
      input_tokens = parsed.prompt_tokens;
      output_tokens = parsed.completion_tokens;
    };
    raw = raw;
  }
]

module _ {F : Type 0} (positive : F → Bool) (json : OpenAiJson F) (bad_url : String → Option String)
    (do_request : WireRequest → Exchange) (scan : String → List String × Option String) where
  unfoldable pub chat :
      OpenAiCompatBackend → String → List ChatMessage → ChatOptions F → Result ChatResponse
  chat b model messages opts =
      let body = json.marshal_chat (build_openai_req positive model messages opts false) in
      elim (exchange b.key do_request (build_request bad_url b "/v1/chat/completions" body false)) [
        | failed e ↦ failed e
        | ok raw ↦ elim (json.unmarshal_chat raw) [
          | inl e ↦ failed (plain_error decode b.key e)
          | inr parsed ↦ chat_response b.key raw parsed
        ]
      ]

  -- The chunks that the goroutine sends.
  unfoldable pub chat_stream :
      OpenAiCompatBackend → String → List ChatMessage → ChatOptions F → Result (List StreamChunk)
  chat_stream b model messages opts =
      let body = json.marshal_chat (build_openai_req positive model messages opts true) in
      elim (exchange b.key do_request (build_request bad_url b "/v1/chat/completions" body true)) [
        | failed e ↦ failed e
        | ok raw ↦ ok (pump_openai_sse json.unmarshal_event (scan raw).0)
      ]

  unfoldable pub embed :
      OpenAiCompatBackend → String → List String → EmbedOptions → Result (EmbedResponse F)
  embed b model texts opts =
      let body = json.marshal_embed record { model = model; input = texts } in
      elim (exchange b.key do_request (build_request bad_url b "/v1/embeddings" body false)) [
        | failed e ↦ failed e
        | ok raw ↦ elim (json.unmarshal_embed raw) [
          | inl e ↦ failed (plain_error decode b.key e)
          | inr parsed ↦ ok record {
            vectors = parsed.data_items;
            model = parsed.model;
            usage = record {
              input_tokens = parsed.prompt_tokens;
              output_tokens = parsed.completion_tokens;
            };
          }
        ]
      ]

  -- The backend as the handle sees it.
  abbrev pub openai_backend : OpenAiCompatBackend → Backend F
  openai_backend b = record {
    key = b.key;
    chat = chat b;
    chat_stream = chat_stream b;
    embed = embed b;
  }
