-- ===== src/Examples/Services.antt =====
-- The rate limiter and the idempotency store at concrete inputs.
use hwhkit_go.Prelude.{
  ◌+◌, ◌*◌, ◌≤◌, ◌<◌, String, ◌≡◌, refl, sym, ap, subst, ◌≢◌, true, false, ◌&&◌, Option, none, some,
  List, [], ◌∷◌, arith, eq_iff, nat_eq, string_eq,
}
use hwhkit_go.Prelude.Int.{pos, second}
use hwhkit_go.Prelude.Text.{Bytes, codes}
use hwhkit_go.Prelude.Dict
use hwhkit_go.Prelude.Dict.{Dict}
use hwhkit_go.Core.CoreError.{Result, ok}
use hwhkit_go.Http.{Request, set_header, write_header, header_get}
use hwhkit_go.Http.Response.{perform_all, blank_response, status_of}
use hwhkit_go.Idempotency.{
  StoreConfig, CachedResponse, idempotent, replay, cached_of, record_calls, new_recorder, mutating,
  cache_key_of, lock_key_of, is_success,
}
use hwhkit_go.Idempotency.Recording.{replay_roundtrip}
use hwhkit_go.Idempotency.Replay.{first_then_later, failure_not_cached, Guarded}
use hwhkit_go.Idempotency.Interleaving.{
  World, Reach, here, next, Exclusive, Reach-Exclusive, waiting, missed, moved, running, miss, lock,
  lock_expires,
}
use hwhkit_go.RateLimit.{Config, limited, ReplyValue}
use hwhkit_go.RateLimit.Script.{Limits, denied}
use hwhkit_go.RateLimit.Rate.{admitted, admitted_rate, total}
use hwhkit_go.RateLimit.Replies.{refusal_says_when, reply_values}
use hwhkit_go.Examples.Setup.{
  sample_redis, sample_law, sample_request, created, crashing, same_text,
}

-- Rate limit: 2 requests in 1000 ms, with a burst of 2.

abbrev two_a_second : Limits
two_a_second = record { limit = 2; window = 1000; burst = 2 }

admitted_rate_example :
    admitted two_a_second 5 none (0 ∷ 0 ∷ 0 ∷ 600 ∷ []) * 1000
    ≤ 2 * 1000 + total (0 ∷ 0 ∷ 600 ∷ []) * 2
admitted_rate_example = admitted_rate two_a_second 5 (0 ∷ 0 ∷ 600 ∷ []) (omega arith)

abbrev limiter_config : Config
limiter_config = record {
  limit = pos 2;
  window = pos second;
  burst = pos 2;
  key_prefix = "ratelimit:";
}

abbrev refusing : String → Result (List ReplyValue)
refusing key = ok (reply_values (denied 1200))

abbrev by_address : Request String → String
by_address r = r.remote_addr

has_address : by_address sample_request ≢ ""
has_address e = ground (arith, eq_iff "10.0.0.1" "")

refusal_says_when_example :
    limited limiter_config refusing
      (λ e. write_header 429 ∷ [])
      (λ z. "2")
      by_address
      created
      sample_request
    ≡ record { calls = set_header "Retry-After" "2" ∷ write_header 429 ∷ []; panicked = false }
refusal_says_when_example =
    refusal_says_when limiter_config refusing (λ e. write_header 429 ∷ []) (λ z. "2") by_address
      created sample_request 1200 has_address (omega arith) (omega arith) refl

-- Idempotency, over an empty Redis.

abbrev store_config : StoreConfig
store_config = record {
  ttl = pos (600 * second);
  key_prefix = "idempotency:";
  lock_ttl = pos (30 * second);
}

abbrev sample_response : CachedResponse
sample_response = record { status = 201; headers = []; body = codes "ok" }

abbrev encode_sample : CachedResponse → Bytes
encode_sample c = codes "r"

abbrev decode_sample : Bytes → Option CachedResponse
decode_sample b = some sample_response

abbrev sample_key : String
sample_key = "idempotency:POST:/orders:k1"

guarded :
    Guarded sample_redis sample_law store_config encode_sample decode_sample same_text
      (λ e. [])
      sample_request
unfolding header_get Dict.get mutating
guarded = record { keyed = refl; mutates = refl }

records :
    cached_of (record_calls (new_recorder []) (created sample_request).calls) ≡ sample_response
unfolding record_calls
records = refl

abbrev after_response : Dict Bytes
after_response = (sample_key, codes "r") ∷ []

abbrev is_at : Dict Bytes → Option Bytes
is_at s = Dict.get (cache_key_of store_config sample_request) s

stored_there : is_at after_response ≡ some (codes "r")
unfolding header_get Dict.get
stored_there = refl

nothing_there : (k : String) → Dict.get {V = Bytes} k [] ≡ none
unfolding Dict.get
nothing_there k = refl

-- A request from elsewhere with the same key.
abbrev later_request : Request String
later_request = record sample_request { remote_addr = "10.0.0.9:7" }

first_then_later_example :
    (after : Dict Bytes) × (idempotent sample_redis store_config encode_sample decode_sample
        same_text
        (λ e. [])
        created
        []
        sample_request
        []
      ≡ (created sample_request, after))
    × (Dict.get (lock_key_of (cache_key_of store_config sample_request)) after ≡ none)
    × (idempotent sample_redis store_config encode_sample decode_sample same_text
          (λ e. [])
          crashing
          []
          later_request
          after
        ≡ (
          record {
            calls =
                replay (cached_of (record_calls (new_recorder []) (created sample_request).calls));
            panicked = false;
          },
          after,
        ))
first_then_later_example =
    first_then_later sample_redis sample_law store_config encode_sample decode_sample same_text
      (λ e. []) created crashing [] [] sample_request later_request [] guarded
      (nothing_there (cache_key_of store_config sample_request))
      (nothing_there (lock_key_of (cache_key_of store_config sample_request)))
      (ap some (sym records)) (ap (λ c. true && is_success c.status) records) refl refl refl

failure_not_cached_example :
    (after : Dict Bytes) × (idempotent sample_redis store_config encode_sample decode_sample
        same_text
        (λ e. [])
        crashing
        []
        sample_request
        []
      ≡ (crashing sample_request, after))
    × (Dict.get (lock_key_of (cache_key_of store_config sample_request)) after ≡ none)
    × (Dict.get (cache_key_of store_config sample_request) after ≡ none)
failure_not_cached_example =
    failure_not_cached sample_redis sample_law store_config encode_sample decode_sample same_text
      (λ e. []) crashing [] sample_request [] guarded
      (nothing_there (cache_key_of store_config sample_request))
      (nothing_there (lock_key_of (cache_key_of store_config sample_request))) refl

replay_roundtrip_example :
    (status_of (
        perform_all blank_response
          (replay (cached_of (record_calls (new_recorder []) (created sample_request).calls))))
      ≡ status_of (perform_all blank_response (created sample_request).calls))
    × ((perform_all blank_response
          (replay (cached_of (record_calls (new_recorder []) (created sample_request).calls)))).body
        ≡ (perform_all blank_response (created sample_request).calls).body)
replay_roundtrip_example =
    replay_roundtrip [] (created sample_request).calls (omega arith, refl, tt)
      (subst (λ c. 0 < c.status) (sym records) (omega arith))

abbrev both_waiting : World sample_redis sample_law store_config decode_sample sample_key
both_waiting = record { store = []; phase = λ i. waiting; runs = 0 }

both_missed_first :
    Reach sample_redis sample_law store_config decode_sample sample_key both_waiting
      (record both_waiting { phase = moved both_waiting.phase 0 missed })
unfolding Dict.get
both_missed_first = next here (miss both_waiting 0 refl refl)

-- The first request has the lock, and the second has looked.
locked_first :
    (w : World sample_redis sample_law store_config decode_sample sample_key) × Reach sample_redis
      sample_law store_config decode_sample sample_key both_waiting w
    × (w.phase 0 ≡ running)
locked_first =
    (_, next both_missed_first (lock _ 0 refl (nothing_there (lock_key_of sample_key))), refl)

Reach-Exclusive_example :
    Exclusive sample_redis sample_law store_config decode_sample sample_key locked_first.0
unfolding locked_first both_missed_first
Reach-Exclusive_example =
    Reach-Exclusive sample_redis sample_law store_config decode_sample sample_key (λ i. refl)
      locked_first.1 ((tt, tt), tt)

lock_expires_example :
    (w : World sample_redis sample_law store_config decode_sample sample_key) × Reach sample_redis
      sample_law store_config decode_sample sample_key both_waiting w
    × (w.phase 0 ≡ running)
    × (w.phase 1 ≡ running)
lock_expires_example =
    lock_expires sample_redis sample_law store_config decode_sample sample_key both_waiting 0 1
      (λ e. absurd (omega (arith, e))) refl refl (nothing_there sample_key)
      (nothing_there (lock_key_of sample_key))
