-- ===== src/Llm/Types.antt =====
-- integration/llm/types.go and error.go. `F` is float32.
use hwhkit_go.Prelude.{
  ℕ, String, Bool, false, Option, none, some, List, [], ◌∷◌, leb, ◌==◌, nat_eq, string_eq,
  if◌then◌else◌,
}
use hwhkit_go.Prelude.Int.{ℤ, wrap64, add_ℤ}
use hwhkit_go.Prelude.Text.{concat}
use hwhkit_go.Prelude.Slices.{text_length, take_text}

abbrev pub Role : Type 0
Role = String

abbrev pub role_system : Role
role_system = "system"

abbrev pub role_user : Role
role_user = "user"

abbrev pub role_assistant : Role
role_assistant = "assistant"

abbrev pub role_tool : Role
role_tool = "tool"

pub record ChatMessage : Type 0 where
  pub role : Role
  pub content : String
  pub name : String

abbrev pub system : String → ChatMessage
system content = record { role = role_system; content = content; name = "" }

abbrev pub user : String → ChatMessage
user content = record { role = role_user; content = content; name = "" }

abbrev pub assistant : String → ChatMessage
assistant content = record { role = role_assistant; content = content; name = "" }

pub record ChatOptions (F : Type 0) : Type 0 where
  pub model : String
  pub temperature : F
  pub max_tokens : ℤ
  pub stop : List String

pub record Usage : Type 0 where
  pub input_tokens : ℤ
  pub output_tokens : ℤ

unfoldable pub total : Usage → ℤ
total u = wrap64 (add_ℤ u.input_tokens u.output_tokens)

pub record ChatResponse : Type 0 where
  pub content : String
  pub model : String
  pub finish_reason : String
  pub usage : Usage
  pub raw : String

pub data ErrorKind : Type 0 where
  unknown_provider not_configured transport bad_status decode timeout invalid_request : ErrorKind

abbrev pub kind_text : ErrorKind → String
kind_text unknown_provider = "unknown_provider"
kind_text not_configured = "not_configured"
kind_text transport = "transport"
kind_text bad_status = "bad_status"
kind_text decode = "decode"
kind_text timeout = "timeout"
kind_text invalid_request = "invalid_request"

-- `*Error`; of its cause, the text.
pub record Error : Type 0 where
  pub kind : ErrorKind
  pub backend : String
  pub status : ℕ
  pub message : String
  pub cause : Option String

unfoldable pub llm_error_text : Error → String
llm_error_text e = elim e.cause [
  | none ↦ concat ("llm: " ∷ kind_text e.kind ∷ " [" ∷ e.backend ∷ "]: " ∷ e.message ∷ [])
  | some c ↦
      concat ("llm: " ∷ kind_text e.kind ∷ " [" ∷ e.backend ∷ "]: " ∷ e.message ∷ ": " ∷ c ∷ [])
]

-- An `*Error` without status and cause.
abbrev pub plain_error : ErrorKind → String → String → Error
plain_error k backend message = record {
  kind = k;
  backend = backend;
  status = 0;
  message = message;
  cause = none;
}

-- An error as the chain that errors.As walks.
pub data Link : Type 0 where
  llm_error : Error → Link
  foreign : String → Link

unfoldable pub is_kind : List Link → ErrorKind → Bool
is_kind [] k = false
is_kind (llm_error e ∷ chain) k = kind_text e.kind == kind_text k
is_kind (foreign s ∷ chain) k = is_kind chain k

unfoldable pub truncate : String → String
truncate body =
    if leb (text_length body) 1024
    then body
    else concat (take_text 1024 body ∷ "... [truncated]" ∷ [])

-- What a call returns: its value, or an `*Error`.
pub data Result {ℓ} (A : Type ℓ) : Type ℓ where
  ok : A → Result A
  failed : Error → Result A

abbrev pub chunk_text : String
chunk_text = "text_delta"

abbrev pub chunk_done : String
chunk_done = "done"

pub record StreamChunk : Type 0 where
  pub kind : String
  pub text : String
  pub finish_reason : String
  pub usage : Option Usage
  pub err : Option Error

abbrev pub text_chunk : String → StreamChunk
text_chunk t = record { kind = chunk_text; text = t; finish_reason = ""; usage = none; err = none }

abbrev pub done_chunk : String → StreamChunk
done_chunk reason = record {
  kind = chunk_done;
  text = "";
  finish_reason = reason;
  usage = none;
  err = none;
}

abbrev pub err_chunk : Error → StreamChunk
err_chunk e = record { kind = ""; text = ""; finish_reason = ""; usage = none; err = some e }

pub record EmbedOptions : Type 0 where
  pub model : String

pub record EmbedResponse (F : Type 0) : Type 0 where
  pub vectors : List (List F)
  pub model : String
  pub usage : Usage
