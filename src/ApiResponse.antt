-- ===== src/ApiResponse.antt =====
-- apiresponse/apiresponse.go: the envelope of a reply. A nil `data` is `none`.
use hwhkit_go.Prelude.{String, ◌≡◌, refl, Option, none, some, nat_eq, string_eq}
use hwhkit_go.Prelude.Int.{ℤ, pos}

abbrev pub code_ok : ℤ
code_ok = pos 0

abbrev pub message_ok : String
message_ok = "ok"

pub record ApiResponse {ℓ} (T : Type ℓ) : Type ℓ where
  pub code : ℤ
  pub message : String
  pub data_ptr : Option T
  pub trace_id : String

module _ {ℓ} {T : Type ℓ} where
  unfoldable pub ok_response : T → ApiResponse T
  ok_response data_value = record {
    code = code_ok;
    message = message_ok;
    data_ptr = some data_value;
    trace_id = "";
  }

  unfoldable pub err_response : ℤ → String → ApiResponse T
  err_response code message = record {
    code = code;
    message = message;
    data_ptr = none;
    trace_id = "";
  }

  unfoldable pub with_trace_id : ApiResponse T → String → ApiResponse T
  with_trace_id r trace_id = record r { trace_id = trace_id }

  -- WithTraceID keeps what the reply says, and the last one wins.
  pub with_trace_id_lem :
      (r : ApiResponse T) (a b : String)
      → (with_trace_id (with_trace_id r a) b ≡ with_trace_id r b) × (with_trace_id r r.trace_id ≡ r)
  unfolding with_trace_id
  with_trace_id_lem r a b = (refl, refl)
