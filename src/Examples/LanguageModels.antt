-- ===== src/Examples/LanguageModels.antt =====
-- The language model integration at concrete inputs. Temperatures are natural numbers here.
use hwhkit_go.Prelude.{
  ℕ, String, ◌≡◌, refl, ◌≢◌, ◌⊎◌, inl, inr, Bool, false, Option, none, List, [], ◌∷◌, arith, eq_iff,
  ltb, nat_eq, string_eq,
}
use hwhkit_go.Prelude.Int.{pos}
use hwhkit_go.Prelude.Text.{append}
use hwhkit_go.Prelude.Slices.{index_byte}
use hwhkit_go.Llm.Types.{ChatMessage, system, user, assistant, ChatOptions, ok}
use hwhkit_go.Http.{header_set}
use hwhkit_go.Prelude.Dict
use hwhkit_go.Llm.Handle.{new_handle, chat, chat_stream, with_defaults}
use hwhkit_go.Core.AppContext
use hwhkit_go.Config.AppConfig.{AppConfig}
use hwhkit_go.Examples.Setup.{sample_config}
use hwhkit_go.Llm.Models.{Backend, slash}
use hwhkit_go.Llm.Handle.Routing.{chat_routes}
use hwhkit_go.Llm.Wire.{WireRequest, Exchange, response}
use hwhkit_go.Llm.OpenAiCompat
use hwhkit_go.Llm.OpenAiCompat.{
  OpenAiCompatBackend, OpenAiJson, OpenAiResp, StreamChoice, pump_openai_sse, build_openai_req,
  build_request, new_openai_compat, openai_backend,
}
use hwhkit_go.Llm.OpenAiCompat.Chat.{chat_succeeds, is_ok, good_exchange}

no_slash : index_byte slash "openai" ≡ none
unfolding index_byte
no_slash = refl

openai_ne : ◌≢◌ {A = String} "openai" ""
openai_ne e = ground (arith, eq_iff "openai" "")

model_ne : ◌≢◌ {A = String} "gpt/4o" ""
model_ne e = ground (arith, eq_iff "gpt/4o" "")

abbrev conversation : List ChatMessage
conversation =
    system "Be brief." ∷ user "Hello" ∷ assistant "Hi" ∷ system "In French." ∷ user "Bye" ∷ []

abbrev parse_event : String → String ⊎ List StreamChoice
parse_event s = inr (record { content = s; finish_reason = none } ∷ [])

abbrev sample_options : ChatOptions ℕ
sample_options = record { model = "openai/gpt/4o"; temperature = 0; max_tokens = pos 0; stop = [] }

abbrev sample_json : OpenAiJson ℕ
sample_json = record {
  marshal_chat = λ r. r.model;
  marshal_embed = λ r. r.model;
  unmarshal_chat = λ s. inr record {
    model = s;
    choices = record { content = "Hello"; finish_reason = "" } ∷ [];
    prompt_tokens = pos 1;
    completion_tokens = pos 1;
  };
  unmarshal_event = parse_event;
  unmarshal_embed = λ s. inl "no embeddings";
}

abbrev good_url : String → Option String
good_url url = none

abbrev answering : WireRequest → Exchange
answering req = response 200 req.body

abbrev one_line : String → List String × Option String
one_line s = (s ∷ [], none)

abbrev positive : ℕ → Bool
positive n = ltb 0 n

abbrev sample_backend : OpenAiCompatBackend
sample_backend = record {
  key = "openai";
  api_key = "secret";
  base_url = "https://llm.example";
  op_timeout = pos 1;
}

abbrev sample_call : WireRequest
sample_call = record {
  url = append "https://llm.example" "/v1/chat/completions";
  header =
      header_set "content-type" "application/json"
        (header_set "Authorization" (append "Bearer " "secret") []);
  body = "gpt";
}

request_built :
    build_request good_url sample_backend "/v1/chat/completions"
      (sample_json.marshal_chat (build_openai_req positive "gpt" conversation sample_options false))
      false
    ≡ ok sample_call
unfolding build_request build_openai_req
request_built = refl

chat_succeeds_example :
    is_ok (
      OpenAiCompat.chat positive sample_json good_url answering one_line sample_backend "gpt"
        conversation sample_options)
    ≡ good_exchange sample_json.unmarshal_chat (response 200 "gpt")
chat_succeeds_example =
    chat_succeeds positive sample_json good_url answering one_line sample_backend "gpt" conversation
      sample_options sample_call (response 200 "gpt") request_built refl

abbrev the_backend : Backend ℕ
the_backend = openai_backend positive sample_json good_url answering one_line sample_backend

chat_routes_example :
    (chat
        (new_handle (the_backend ∷ []) "" "" 7 (pos 100) (pos 1))
        positive
        conversation
        sample_options
      ≡ the_backend.chat "gpt/4o" conversation (
          with_defaults
            (new_handle (the_backend ∷ []) "" "" 7 (pos 100) (pos 1))
            positive
            sample_options))
    × (chat_stream
          (new_handle (the_backend ∷ []) "" "" 7 (pos 100) (pos 1))
          positive
          conversation
          sample_options
        ≡ the_backend.chat_stream "gpt/4o" conversation (
            with_defaults
              (new_handle (the_backend ∷ []) "" "" 7 (pos 100) (pos 1))
              positive
              sample_options))
chat_routes_example =
    chat_routes positive (the_backend ∷ []) "" "" 7 (pos 100) (pos 1) "openai" "gpt/4o" the_backend
      conversation sample_options no_slash openai_ne model_ne refl refl

-- Only Anthropic and Ollama are configured.
abbrev two_creds : AppConfig ℕ
two_creds = record sample_config {
  integrations = record sample_config.integrations {
    llm = record sample_config.integrations.llm {
      providers = record sample_config.integrations.llm.providers {
        anthropic = record { api_key = "secret"; base_url = "" };
        ollama = record { api_key = ""; base_url = "http://localhost" };
      };
    };
  };
}

abbrev keyed : String → Backend ℕ
keyed k = record the_backend { key = k }
