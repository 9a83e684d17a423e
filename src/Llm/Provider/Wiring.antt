-- ===== src/Llm/Provider/Wiring.antt =====
-- The model prefixes that the handle of Init knows, against the configured credentials.
use hwhkit_go.Prelude.{String, Bool, ◌&&◌, List, ◌==◌, nat_eq, string_eq, any}
use hwhkit_go.Prelude.Dict
use hwhkit_go.Prelude.Dict.{Dict}
use hwhkit_go.Config.AppConfig.{AppConfig}
use hwhkit_go.Config.Integrations.{LlmProviderCreds, is_configured}
use hwhkit_go.Core.AppContext.{AppContext}
use hwhkit_go.Llm.Handle.{Handle}

-- A prefix has credentials, a key or a base URL, among these rows.
abbrev pub has_credentials : String → List (String × LlmProviderCreds) → Bool
has_credentials p rows = any (λ row. row.0 == p && is_configured row.1) rows
