-- ===== src/Llm/Handle.antt =====
-- integration/llm/handle.go. `F` is float32 and `positive` its `> 0`.
pub mod Routing
use hwhkit_go.Prelude.{
  ℕ, zero, suc, ◌+◌, ◌-◌, ◌*◌, ◌/◌, ◌%◌, ◌^◌, ◌≤◌, ◌<◌, String, ◌≡◌, refl, sym, ap, ◌∙◌, subst, ◌≢◌,
  ◌↔◌, ◌⊎◌, inl, inr, Bool, true, false, not, ◌&&◌, ◌||◌, Option, none, some, List, [], ◌∷◌, ◌++◌,
  map, append-nil, append_assoc, arith, eq_iff, ltb, leb, Eq, ◌==◌, nat_eq, string_eq,
  if◌then◌else◌, ltb→lt, lt→ltb, leb→le, tests, Bool-cases, Option-cases, is_some, or_else, length,
  get_elem?, set, any, all, length-append, length-map, All, All-append,
}
use hwhkit_go.Prelude.Int.{ℤ, Duration, is_positive}
use hwhkit_go.Prelude.Text.{concat, join}
use hwhkit_go.Prelude.Dict
use hwhkit_go.Prelude.Dict.{Dict}
use hwhkit_go.Prelude.Sort.{sort_strings}
use hwhkit_go.Llm.Types.{
  ChatMessage, ChatOptions, ChatResponse, StreamChunk, EmbedOptions, EmbedResponse, Result, ok,
  failed, invalid_request, unknown_provider, plain_error,
}
use hwhkit_go.Llm.Models.{Backend, split_model}

pub record Handle (F : Type 0) : Type 0 where
  pub backends : Dict (Backend F)
  pub default_chat_model : String
  pub default_embedding_model : String
  pub default_temperature : F
  pub default_max_tokens : ℤ
  pub op_timeout : Duration

-- The loop of NewHandle.
unfoldable pub backend_map : {F : Type 0} → Dict (Backend F) → List (Backend F) → Dict (Backend F)
backend_map m [] = m
backend_map m (b ∷ bs) = backend_map (Dict.put b.key b m) bs

unfoldable pub new_handle :
    {F : Type 0} → List (Backend F) → String → String → F → ℤ → Duration → Handle F
new_handle backends chat_model embedding_model temperature max_tokens op_timeout = record {
  backends = backend_map [] backends;
  default_chat_model = chat_model;
  default_embedding_model = embedding_model;
  default_temperature = temperature;
  default_max_tokens = max_tokens;
  op_timeout = op_timeout;
}

unfoldable pub backend_keys : {F : Type 0} → Handle F → List String
backend_keys h = sort_strings (Dict.keys h.backends)

module _ {F : Type 0} (h : Handle F) where
  -- The backend for a model, and the model's name there; `none_configured` and `bad_form` are the
  -- messages that resolveChat and resolveEmbed differ in.
  abbrev pub pick_backend : String → String → String → Result (Backend F × String)
  pick_backend full none_configured bad_form =
      if full == ""
      then failed (plain_error invalid_request "" none_configured)
      else elim (split_model full) [
        | none ↦ failed (plain_error invalid_request "" bad_form)
        | some (prefix, name) ↦ elim (Dict.get prefix h.backends) [
          | none ↦ failed (
              plain_error unknown_provider "" (
                concat (
                  "unknown model prefix '"
                  ∷ prefix
                  ∷ "'; known: "
                  ∷ join ", " (backend_keys h)
                  ∷ [])))
          | some b ↦ ok (b, name)
        ]
      ]

  abbrev pub or_default : String → String → String
  or_default model fallback = if model == "" then fallback else model

  abbrev pub with_defaults : (F → Bool) → ChatOptions F → ChatOptions F
  with_defaults positive opts = record opts {
    temperature = if positive opts.temperature then opts.temperature else h.default_temperature;
    max_tokens = if is_positive opts.max_tokens then opts.max_tokens else h.default_max_tokens;
  }

  unfoldable pub resolve_chat :
      (F → Bool) → ChatOptions F → Result (Backend F × String × ChatOptions F)
  resolve_chat positive opts =
      let full = or_default opts.model h.default_chat_model in
      elim (pick_backend full "no model specified and no default_chat_model configured" (
        concat
          ("model '" ∷ full ∷ "' must include a provider prefix (e.g. 'openai/gpt-4o')" ∷ []))) [
            | failed e ↦ failed e
            | ok (b, name) ↦ ok (b, name, with_defaults positive opts)
          ]

  unfoldable pub resolve_embed : EmbedOptions → Result (Backend F × String)
  resolve_embed opts =
      let full = or_default opts.model h.default_embedding_model in
      pick_backend full "no model specified and no default_embedding_model configured"
        (concat ("model '" ∷ full ∷ "' must include a provider prefix" ∷ []))

  unfoldable pub chat : (F → Bool) → List ChatMessage → ChatOptions F → Result ChatResponse
  unfolding resolve_chat
  chat positive messages opts = elim (resolve_chat positive opts) [
    | failed e ↦ failed e
    | ok (b, model, resolved) ↦ b.chat model messages resolved
  ]

  unfoldable pub chat_stream :
      (F → Bool) → List ChatMessage → ChatOptions F → Result (List StreamChunk)
  unfolding resolve_chat
  chat_stream positive messages opts = elim (resolve_chat positive opts) [
    | failed e ↦ failed e
    | ok (b, model, resolved) ↦ b.chat_stream model messages resolved
  ]

  unfoldable pub embed : List String → EmbedOptions → Result (EmbedResponse F)
  unfolding resolve_embed
  embed [] opts = failed (plain_error invalid_request "" "texts must be non-empty")
  embed (t ∷ ts) opts = elim (resolve_embed opts) [
    | failed e ↦ failed e
    | ok (b, model) ↦ b.embed model (t ∷ ts) opts
  ]
