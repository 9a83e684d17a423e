-- ===== src/Middleware/RequestId.antt =====
-- hwhkit/middleware/requestid.go. `new_v7` is uuid.NewV7, `none` for an error, and `new_string` is
-- uuid.NewString.
use hwhkit_go.Prelude.{
  String, Option, List, [], ◌∷◌, ◌==◌, nat_eq, string_eq, if◌then◌else◌, or_else,
}
use hwhkit_go.Http.{
  Middleware, Request, ContextValue, request_id, with_value, header_get, set_header, after,
}

abbrev pub request_id_header : String
request_id_header = "X-Request-Id"

module _ {C : Type 0} (new_v7 : Option String) (new_string : String) where
  abbrev pub chosen_id : Request C → String
  chosen_id r =
      let id = header_get request_id_header r.header in
      if id == "" then or_else new_v7 new_string else id

  unfoldable pub request_id_middleware : Middleware C
  request_id_middleware next r =
      after (set_header request_id_header (chosen_id r) ∷ [])
        (next (with_value (request_id (chosen_id r)) r))

-- RequestIDFromContext: the newest value under the key, or "".
unfoldable pub request_id_from_context : {C : Type 0} → List (ContextValue C) → String
request_id_from_context [] = ""
request_id_from_context (request_id id ∷ vs) = id
request_id_from_context (_ ∷ vs) = request_id_from_context vs
