-- ===== src/Llm/OpenAiCompat/Chat.antt =====
-- When a call of the backend succeeds.
use hwhkit_go.Prelude.{
  ℕ, ◌/◌, ◌≤◌, String, ◌≡◌, refl, ◌⊎◌, inl, inr, Bool, true, false, ◌&&◌, Option, List, [], ◌∷◌,
  arith, ltb, leb, ◌==◌, nat_eq, string_eq, leb→le, Bool-cases, length,
}
use hwhkit_go.Prelude.Slices.{take_text, text_length, length-append_text, take-length}
use hwhkit_go.Llm.Types.{ChatMessage, ChatOptions, Result, ok, failed, truncate}
use hwhkit_go.Llm.Wire.{Exchange, do_error, response, WireRequest, exchange}
use hwhkit_go.Llm.OpenAiCompat.{
  OpenAiCompatBackend, OpenAiJson, OpenAiResp, chat, build_openai_req, build_request, chat_response,
  OpenAiChoice, ChatResponse, plain_error, decode,
}

-- The body of an error response is cut: the message has at most 1039 bytes.
pub truncate_bounds : (body : String) → text_length (truncate body) ≤ 1039
unfolding truncate text_length
truncate_bounds body = elim (Bool-cases (leb (text_length body) 1024)) [
  | inl small ↦ rw (small, truncate) (let h = leb→le (text_length body) 1024 small in omega arith)
  | inr large ↦
      rw (large, truncate)
        (rw (length-append_text (take_text 1024 body) "... [truncated]") (
          let h = take-length 1024 body in
          let m : text_length "... [truncated]" ≡ 15 = refl in omega arith))
]

-- What a body must be for Chat to succeed.
abbrev pub has_choice : String ⊎ OpenAiResp → Bool
has_choice (inl e) = false
has_choice (inr parsed) = ltb 0 (length parsed.choices)

abbrev pub good_exchange : (String → String ⊎ OpenAiResp) → Exchange → Bool
good_exchange unmarshal (do_error msg) = false
good_exchange unmarshal (response status raw) =
    leb 200 status && ltb status 300 && has_choice (unmarshal raw)

abbrev pub is_ok : {A : Type 0} → Result A → Bool
is_ok (ok a) = true
is_ok (failed e) = false

has_response :
    (key raw : String) (u : OpenAiResp) (cs : List OpenAiChoice)
    → u.choices ≡ cs
    → is_ok (chat_response key raw u) ≡ has_choice (inr u)
has_response key raw u [] e = rw e refl
has_response key raw u (c ∷ cs) e = rw e (ground arith)

both_true :
    (status : ℕ) (c : Bool)
    → (status / 100 == 2) ≡ true
    → (leb 200 status && ltb status 300 && c) ≡ c
both_true status c h = ground arith

one_false :
    (status : ℕ) (c : Bool)
    → (status / 100 == 2) ≡ false
    → (leb 200 status && ltb status 300 && c) ≡ false
one_false status c h = ground arith

module _ {F : Type 0} (positive : F → Bool) (json : OpenAiJson F) (bad_url : String → Option String)
    (do_request : WireRequest → Exchange) (scan : String → List String × Option String) where
  parsed_is_ok :
      (key raw : String) (u : String ⊎ OpenAiResp)
      → is_ok (elim u as (λ x. Result ChatResponse) [
        | inl e ↦ failed (plain_error decode key e)
        | inr parsed ↦ chat_response key raw parsed
      ])
        ≡ has_choice u
  parsed_is_ok key raw (inl e) = refl
  parsed_is_ok key raw (inr u) = has_response key raw u u.choices refl

  -- When the request can be built, Chat succeeds exactly if the server answers with a status from 200
  -- to 299 and a body that parses to a completion with at least one choice.
  pub chat_succeeds :
      (b : OpenAiCompatBackend) (model : String) (messages : List ChatMessage)
      (opts : ChatOptions F) (req : WireRequest) (answer : Exchange)
      → build_request bad_url b "/v1/chat/completions"
          (json.marshal_chat (build_openai_req positive model messages opts false))
          false
        ≡ ok req
      → do_request req ≡ answer
      → is_ok (chat positive json bad_url do_request scan b model messages opts)
        ≡ good_exchange json.unmarshal_chat answer
  unfolding chat exchange
  chat_succeeds b model messages opts req (do_error msg) e d = rw (e, chat) (rw (d, exchange) refl)
  chat_succeeds b model messages opts req (response status raw) e d =
      rw (e, chat)
        (rw (d, exchange)
          (elim (Bool-cases (status / 100 == 2)) [
            | inl good ↦
                rw (good, both_true status (has_choice (json.unmarshal_chat raw)) good)
                  (parsed_is_ok b.key raw (json.unmarshal_chat raw))
            | inr bad ↦ rw (bad, one_false status (has_choice (json.unmarshal_chat raw)) bad) refl
          ]))
