-- ===== src/Llm/Provider.antt =====
-- integration/llm/provider.go. The two clients come from `new_a` and `new_o`, NewAnthropic and
-- NewOpenAICompat as backends.
pub mod Wiring
use hwhkit_go.Prelude.{
  ℕ, String, Bool, false, Option, none, some, List, [], ◌∷◌, nat_eq, string_eq, if◌then◌else◌,
}
use hwhkit_go.Prelude.Int.{Duration}
use hwhkit_go.Config.AppConfig.{AppConfig}
use hwhkit_go.Config.Integrations.{
  LlmConfig, LlmProviderCreds, LlmProviders, is_configured, op_timeout,
}
use hwhkit_go.Core.CoreError
use hwhkit_go.Core.CoreError.{integration_msg}
use hwhkit_go.Core.AppContext.{AppContext, insert, insert_named}
use hwhkit_go.Llm.Models.{Backend}
use hwhkit_go.Llm.Handle.{Handle, new_handle}

abbrev pub llm_key : String
llm_key = "llm"

unfoldable pub llm_enabled : {F : Type 0} → AppConfig F → Bool
llm_enabled c = c.integrations.llm.enabled

unfoldable pub llm_required : {F : Type 0} → AppConfig F → Bool
llm_required c = c.integrations.llm.required

unfoldable pub non_zero_f32 : {F : Type 0} → (F → Bool) → F → F → F
non_zero_f32 positive v fallback = if positive v then v else fallback

module _ {F : Type 0} (positive : F → Bool) (seven_tenths : F)
    (new_a : String → String → Duration → Backend F)
    (new_o : String → String → String → Duration → Backend F) where
  abbrev pub entries : LlmProviders → List (String × LlmProviderCreds)
  entries p =
      ("openai", p.openai)
      ∷ ("deepseek", p.deepseek)
      ∷ ("moonshot", p.moonshot)
      ∷ ("ollama", p.ollama)
      ∷ []

  unfoldable pub compat_backends : Duration → List (String × LlmProviderCreds) → List (Backend F)
  compat_backends op [] = []
  compat_backends op ((key, creds) ∷ es) =
      let rest = compat_backends op es in
      if is_configured creds then new_o key creds.api_key creds.base_url op ∷ rest else rest

  abbrev pub configured_backends : LlmConfig F → List (Backend F)
  configured_backends lc =
      let op = op_timeout lc.resilience in
      let others = compat_backends op (entries lc.providers) in
      let creds = lc.providers.anthropic in
      if is_configured creds then new_a creds.api_key creds.base_url op ∷ others else others

  abbrev pub handle_of : LlmConfig F → List (Backend F) → Handle F
  handle_of lc backends =
      new_handle backends lc.default_chat_model lc.default_embedding_model
        (non_zero_f32 positive lc.default_temperature seven_tenths) lc.default_max_tokens
        (op_timeout lc.resilience)

  -- Init, with the handle that it makes; `address` is the handle's, and "Handle" its type's name.
  unfoldable pub llm_init :
      ℕ → AppContext → AppConfig F → AppContext × Option (Handle F) × Option CoreError.Error
  llm_init address app c =
      let lc = c.integrations.llm in
      elim (configured_backends lc) [
        | [] ↦ (
          app,
          none,
          some (
              integration_msg llm_key CoreError.not_configured
                "no backends configured under [integrations.llm.providers.*]"),
        )
        | b ∷ bs ↦ (
          insert_named (insert app "llm.Handle" false address) llm_key
              record { elem_type = "llm.Handle"; address = address },
          some (handle_of lc (b ∷ bs)),
          none,
        )
      ]
