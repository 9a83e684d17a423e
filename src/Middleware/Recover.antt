-- ===== src/Middleware/Recover.antt =====
-- hwhkit/middleware/recover.go. The log line is not part of the model.
use hwhkit_go.Prelude.{
  ℕ, String, ◌≡◌, refl, inl, inr, Bool, true, false, none, some, List, [], ◌∷◌, ◌++◌, arith, nat_eq,
  string_eq, if◌then◌else◌, Bool-cases,
}
use hwhkit_go.Prelude.Text.{Bytes}
use hwhkit_go.Http.{Handler, Middleware, Request, Call, write_header, write, set_header, Header}
use hwhkit_go.Http.Response.{
  Response, blank_response, perform, perform_all, perform_all-append, sent_stays, status_of,
}
use hwhkit_go.Core.ApiError.{ApiError, internal, write_json}

module _ {C : Type 0} (status_text : ℕ → String) (encode : ApiError → Bytes) where
  unfoldable pub recover : Middleware C
  recover next r =
      let run = next r in
      if run.panicked
      then record {
        calls =
            run.calls
            ++ write_json status_text encode (internal "an internal server error occurred");
        panicked = false;
      }
      else run

-- The calls of `cs` that send the status and the headers.
abbrev pub sends : List Call → Bool
sends [] = false
sends (write_header code ∷ cs) = true
sends (write b ∷ cs) = true
sends (_ ∷ cs) = sends cs

unsent :
    (r : Response) (cs : List Call)
    → sends cs ≡ false
    → r.sent ≡ none
    → (perform_all r cs).sent ≡ none
unfolding perform_all
unsent r [] h e = e
unsent r (set_header k v ∷ cs) h e = unsent (perform r (set_header k v)) cs h (unfold perform in e)
unsent r (write_header code ∷ cs) h e = cc
unsent r (write b ∷ cs) h e = cc
unsent r (c ∷ cs) h e = unsent (perform r c) cs h (unfold perform in e)

module _ (status_text : ℕ → String) (encode : ApiError → Bytes) where
  error_after :
      (r : Response)
      → r.sent ≡ none
      → status_of (
          perform_all r
            (write_json status_text encode (internal "an internal server error occurred")))
        ≡ 500
  unfolding perform_all perform write_json internal
  error_after r e = ground arith

module _ {C : Type 0} (status_text : ℕ → String) (encode : ApiError → Bytes) where
  -- If the handler panics after it has sent nothing, the recovered handler does not panic, and the
  -- client sees status 500.
  pub recover-sends_500 :
      (next : Handler C) (r : Request C)
      → (next r).panicked ≡ true
      → sends (next r).calls ≡ false
      → ((recover status_text encode next r).panicked ≡ false)
        × (status_of (perform_all blank_response (recover status_text encode next r).calls) ≡ 500)
  unfolding recover
  recover-sends_500 next r bad quiet =
      rw (bad, recover)
        (
          refl,
          rw perform_all-append (
              error_after status_text encode (perform_all blank_response (next r).calls)
                (unsent blank_response (next r).calls quiet refl)),
        )

  -- If the handler has sent a status and headers, then, whether it panics or not, the recovered
  -- handler does not panic and the client sees that status and those headers.
  recover_keeps_sent :
      (next : Handler C) (r : Request C) (s : ℕ × Header)
      → (perform_all blank_response (next r).calls).sent ≡ some s
      → ((recover status_text encode next r).panicked ≡ false)
        × ((perform_all blank_response (recover status_text encode next r).calls).sent ≡ some s)
  unfolding recover
  recover_keeps_sent next r s h = elim (Bool-cases (next r).panicked) [
    | inl bad ↦
        rw (bad, recover)
          (
            refl,
            rw perform_all-append (
                sent_stays (perform_all blank_response (next r).calls) s
                  (write_json status_text encode (internal "an internal server error occurred")) h),
          )
    | inr fine ↦ rw (fine, recover) (refl, h)
  ]
