-- ===== src/Llm/Wire.antt =====
-- What the backends of integration/llm use of net/http, and classifyHTTPError of anthropic.go. A
-- string of bytes is a String whose characters are bytes.
use hwhkit_go.Prelude.{
  ℕ, ◌/◌, String, not, ◌||◌, none, some, ◌==◌, nat_eq, string_eq, if◌then◌else◌,
}
use hwhkit_go.Prelude.Text.{contains}
use hwhkit_go.Http.{Header}
use hwhkit_go.Llm.Types.{
  Error, Result, ok, failed, timeout, transport, bad_status, invalid_request, truncate,
}

pub record WireRequest : Type 0 where
  pub url : String
  pub header : Header
  pub body : String

-- The answer of `client.Do`: an error's text, or a status and what the body yields.
pub data Exchange : Type 0 where
  do_error : String → Exchange
  response : ℕ → String → Exchange

unfoldable pub classify_http_error : String → String → Error
classify_http_error backend msg =
    if contains msg "context deadline exceeded" || contains msg "Client.Timeout"
    then record { kind = timeout; backend = backend; status = 0; message = msg; cause = some msg }
    else record { kind = transport; backend = backend; status = 0; message = msg; cause = some msg }

-- `build request`, with the cause.
abbrev pub build_error : String → String → Error
build_error backend cause = record {
  kind = invalid_request;
  backend = backend;
  status = 0;
  message = "build request";
  cause = some cause;
}

-- The sequence of Chat, ChatStream and Embed up to the body of a successful response: the request
-- is built, sent, and its status is tested.
unfoldable pub exchange : String → (WireRequest → Exchange) → Result WireRequest → Result String
exchange backend do_request (failed e) = failed e
exchange backend do_request (ok req) = elim (do_request req) [
  | do_error msg ↦ failed (classify_http_error backend msg)
  | response status raw ↦
      if not (status / 100 == 2)
      then failed record {
        kind = bad_status;
        backend = backend;
        status = status;
        message = truncate raw;
        cause = none;
      }
      else ok raw
]
