-- ===== src/Core/ApiError.antt =====
-- core/apierror/apierror.go. `encode` is the JSON encoder and `status_text` is http.StatusText.
use hwhkit_go.Prelude.{ℕ, String, List, [], ◌∷◌, ◌==◌, nat_eq, string_eq, if◌then◌else◌}
use hwhkit_go.Prelude.Text.{Bytes, concat}
use hwhkit_go.Http.{Call, set_header, write_header, write}

abbrev pub content_type : String
content_type = "application/problem+json"

pub record FieldError : Type 0 where
  pub field_name : String
  pub code : String
  pub message : String

pub record ApiError : Type 0 where
  pub status : ℕ
  pub type_uri : String
  pub title : String
  pub detail : String
  pub code : String
  pub fields : List FieldError

unfoldable pub error_text : ApiError → String
error_text e = if e.detail == "" then e.title else concat (e.title ∷ ": " ∷ e.detail ∷ [])

-- New: the other fields have their zero values.
unfoldable pub new_error : ℕ → String → String → ApiError
new_error status title detail = record {
  status = status;
  type_uri = "";
  title = title;
  detail = detail;
  code = "";
  fields = [];
}

unfoldable pub not_found : String → ApiError
unfolding new_error
not_found detail = new_error 404 "Not Found" detail

unfoldable pub unauthorized : String → ApiError
unfolding new_error
unauthorized detail = new_error 401 "Unauthorized" detail

unfoldable pub forbidden : String → ApiError
unfolding new_error
forbidden detail = new_error 403 "Forbidden" detail

unfoldable pub bad_request : String → ApiError
unfolding new_error
bad_request detail = new_error 400 "Bad Request" detail

unfoldable pub conflict : String → ApiError
unfolding new_error
conflict detail = new_error 409 "Conflict" detail

unfoldable pub validation : List FieldError → ApiError
validation fields = record {
  status = 422;
  type_uri = "";
  title = "Validation Failed";
  detail = "";
  code = "";
  fields = fields;
}

unfoldable pub too_many_requests : String → ApiError
unfolding new_error
too_many_requests detail = new_error 429 "Too Many Requests" detail

unfoldable pub internal : String → ApiError
unfolding new_error
internal detail = new_error 500 "Internal Server Error" detail

module _ (status_text : ℕ → String) (encode : ApiError → Bytes) where
  -- The defaults that WriteJSON writes into the error.
  abbrev pub completed : ApiError → ApiError
  completed e =
      let status : ℕ = if e.status == 0 then 500 else e.status in
      record e { status = status; title = if e.title == "" then status_text status else e.title }

  unfoldable pub write_json : ApiError → List Call
  write_json e =
      set_header "Content-Type" content_type
      ∷ write_header (completed e).status
      ∷ write (encode (completed e))
      ∷ []
