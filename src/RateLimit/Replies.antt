-- ===== src/RateLimit/Replies.antt =====
-- The middleware of ratelimit/middleware.go over the answers of its script.
use hwhkit_go.Prelude.{
  ℕ, ◌+◌, ◌*◌, ◌/◌, ◌≤◌, ◌<◌, String, ◌≡◌, refl, ◌≢◌, true, false, List, [], ◌∷◌, arith, eq_iff,
  nat_eq, string_eq, lt→ltb,
}
use hwhkit_go.Prelude.Text.{append}
use hwhkit_go.Prelude.Int.{of_millis, div_trunc, millisecond, wrap64_of_fits}
use hwhkit_go.RateLimit.{
  Config, limited, allow, int64, ReplyValue, retry_seconds, pos, Result, ApiError, Call, ℤ, Request,
  Handler, ok, set_header, too_many_requests,
}
use hwhkit_go.RateLimit.Script.{Reply, allowed, denied}

-- The script's `{allowed, wait_ms}`.
abbrev pub reply_values : Reply → List ReplyValue
reply_values allowed = int64 (pos 1) ∷ int64 (pos 0) ∷ []
reply_values (denied w) = int64 (pos 0) ∷ int64 (pos w) ∷ []

millis_fits : (w : ℕ) → w ≤ 9223372036854 → of_millis w ≡ pos (w * millisecond)
unfolding of_millis
millis_fits w h = wrap64_of_fits (w * millisecond) (omega arith)

seconds_of : (w : ℕ) → w ≤ 9223372036854 → retry_seconds (of_millis w) ≡ pos (w / 1000 + 1)
unfolding div_trunc
seconds_of w h = rw (millis_fits w h) (ground arith)

module _ (cfg : Config) (eval : String → Result (List ReplyValue)) (key : String) where
  allow-no_key : key ≡ "" → allow cfg eval key ≡ ok (true, pos 0)
  unfolding allow
  allow-no_key e = ground (arith, eq_iff key "")

  allow-allowed :
      key ≢ ""
      → eval (append cfg.key_prefix key) ≡ ok (reply_values allowed)
      → allow cfg eval key ≡ ok (true, pos 0)
  unfolding allow
  allow-allowed k e = rw (e, allow) (ground (arith, k, millis_fits 0, eq_iff key ""))

  allow-denied :
      (w : ℕ)
      → key ≢ ""
      → eval (append cfg.key_prefix key) ≡ ok (reply_values (denied w))
      → allow cfg eval key ≡ ok (false, of_millis w)
  unfolding allow
  allow-denied w k e = rw (e, allow) (ground (arith, k, eq_iff key ""))

module _ {C : Type 0} (cfg : Config) (eval : String → Result (List ReplyValue))
    (error_calls : ApiError → List Call) (itoa : ℤ → String) (extractor : Request C → String)
    (next : Handler C) (r : Request C) where
  -- Without a key, the request is passed on whatever the script would say.
  pub no_key_passes : extractor r ≡ "" → limited cfg eval error_calls itoa extractor next r ≡ next r
  unfolding limited
  no_key_passes e = rw (allow-no_key cfg eval (extractor r) e, limited) refl

  -- A request that has a key and that the script admits is passed on.
  pub admitted_passes :
      extractor r ≢ ""
      → eval (append cfg.key_prefix (extractor r)) ≡ ok (reply_values allowed)
      → limited cfg eval error_calls itoa extractor next r ≡ next r
  unfolding limited
  admitted_passes k e = rw (allow-allowed cfg eval (extractor r) k e, limited) refl

  -- When the script refuses a request that has a key, with a wait of 1 to 9223372036854 ms, the next
  -- handler does not run: Retry-After is set to the whole seconds of the wait and one more, and the
  -- error 429 is written.
  pub refusal_says_when :
      (w : ℕ)
      → extractor r ≢ ""
      → 0 < w
      → w ≤ 9223372036854
      → eval (append cfg.key_prefix (extractor r)) ≡ ok (reply_values (denied w))
      → limited cfg eval error_calls itoa extractor next r ≡ record {
        calls =
            set_header "Retry-After" (itoa (pos (w / 1000 + 1)))
            ∷ error_calls (too_many_requests "rate limit exceeded");
        panicked = false;
      }
  unfolding limited
  refusal_says_when w k p h e =
      rw (allow-denied cfg eval (extractor r) w k e, limited)
        (rw (seconds_of w h, millis_fits w h) (rw (lt→ltb 0 (w * millisecond) (omega arith)) refl))
