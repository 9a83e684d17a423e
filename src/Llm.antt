-- ===== src/Llm.antt =====
-- integration/llm: types.go and error.go are in Types, backend.go in Models, handle.go in Handle,
-- openai_compat.go in OpenAiCompat, anthropic.go in Anthropic and provider.go in Provider; Wire has
-- what the two backends use of net/http.
pub mod Types
pub mod Models
pub mod Handle
pub mod Wire
pub mod OpenAiCompat
pub mod Anthropic
pub mod Provider
