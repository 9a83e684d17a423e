-- ===== src/Idempotency.antt =====
-- idempotency/middleware.go. The Redis client is a parameter: a state and the four commands that the
-- middleware calls. A cached response is stored as bytes by `encode` and read back by `decode`,
-- which stand for encoding/json; `to_upper` is strings.ToUpper.
pub mod Recording
pub mod Replay
pub mod Interleaving
use hwhkit_go.Prelude.{
  ℕ, zero, suc, ◌+◌, ◌-◌, ◌*◌, ◌/◌, ◌%◌, ◌^◌, ◌≤◌, ◌<◌, String, ◌≡◌, refl, sym, ap, ◌∙◌, subst, ◌≢◌,
  ◌↔◌, ◌⊎◌, inl, inr, Bool, true, false, not, ◌&&◌, ◌||◌, Option, none, some, List, [], ◌∷◌, ◌++◌,
  map, append-nil, append_assoc, arith, eq_iff, ltb, leb, Eq, ◌==◌, nat_eq, string_eq,
  if◌then◌else◌, ltb→lt, lt→ltb, leb→le, tests, Bool-cases, Option-cases, is_some, or_else, length,
  get_elem?, set, any, all, length-append, length-map, All, All-append,
}
use hwhkit_go.Prelude.Int.{ℤ, pos, Duration, is_positive, second}
use hwhkit_go.Prelude.Text.{Bytes, append, concat}
use hwhkit_go.Prelude.Dict
use hwhkit_go.Prelude.Dict.{Dict}
use hwhkit_go.Core.CoreError.{Error}
use hwhkit_go.Core.ApiError.{ApiError, internal, conflict, write_json}
use hwhkit_go.Http.{
  Header, Handler, Request, Run, Call, set_header, add_header, write_header, write, header_get,
  header_set, header_add,
}

-- The reply to GET: a value, redis.Nil, or another error.
pub data GetReply : Type 0 where
  hit : Bytes → GetReply
  missing : GetReply
  get_failed : Error → GetReply

-- The reply to SETNX.
pub data LockReply : Type 0 where
  acquired busy : LockReply
  lock_failed : Error → LockReply

pub record Redis : Type 1 where
  pub State : Type 0
  pub get : String → State → GetReply
  pub set_nx : String → Bytes → Duration → State → LockReply × State
  pub set : String → Bytes → Duration → State → State
  pub del : String → State → State

pub record StoreConfig : Type 0 where
  pub ttl : Duration
  pub key_prefix : String
  pub lock_ttl : Duration

-- New: the defaults of the configuration.
unfoldable pub new_store : StoreConfig → StoreConfig
new_store cfg = record {
  ttl = if is_positive cfg.ttl then cfg.ttl else pos (600 * second);
  key_prefix = if cfg.key_prefix == "" then "idempotency:" else cfg.key_prefix;
  lock_ttl = if is_positive cfg.lock_ttl then cfg.lock_ttl else pos (30 * second);
}

pub record CachedResponse : Type 0 where
  pub status : ℕ
  pub headers : Dict String
  pub body : Bytes

-- The recorder, with the header map of the writer that it wraps.
pub record Recorder : Type 0 where
  pub status : ℕ
  pub headers : Dict String
  pub buf : Bytes
  pub live : Header

-- The first value of each header with a value.
unfoldable pub first_values : Header → Dict String → Dict String
first_values [] headers = headers
first_values ((k, []) ∷ h) headers = first_values h headers
first_values ((k, v ∷ vs) ∷ h) headers = first_values h (Dict.put k v headers)

-- WriteHeader and Write of the recorder, and the calls on the header map that it shares with the
-- writer.
unfoldable pub record_call : Recorder → Call → Recorder
unfolding first_values header_set header_add
record_call rec (set_header k v) = record rec { live = header_set k v rec.live }
record_call rec (add_header k v) = record rec { live = header_add k v rec.live }
record_call rec (write_header code) = record rec {
  status = code;
  headers = first_values rec.live rec.headers;
}
record_call rec (write b) = record rec {
  status = if rec.status == 0 then 200 else rec.status;
  buf = rec.buf ++ b;
}

unfoldable pub record_calls : Recorder → List Call → Recorder
unfolding record_call
record_calls rec [] = rec
record_calls rec (c ∷ cs) = record_calls (record_call rec c) cs

abbrev pub new_recorder : Header → Recorder
new_recorder live = record { status = 0; headers = []; buf = []; live = live }

abbrev pub cached_of : Recorder → CachedResponse
cached_of rec = record { status = rec.status; headers = rec.headers; body = rec.buf }

unfoldable pub set_all : Dict String → List Call
set_all [] = []
set_all ((k, v) ∷ h) = set_header k v ∷ set_all h

unfoldable pub replay : CachedResponse → List Call
unfolding set_all
replay c =
    set_all c.headers
    ++ (set_header "Idempotency-Replay" "true" ∷ write_header c.status ∷ write c.body ∷ [])

unfoldable pub mutating : (String → String) → String → Bool
mutating to_upper method =
    let m = to_upper method in m == "POST" || m == "PUT" || m == "PATCH" || m == "DELETE"

abbrev pub is_success : ℕ → Bool
is_success status = leb 200 status && ltb status 300

abbrev pub cache_key_of : {C : Type 0} → StoreConfig → Request C → String
cache_key_of cfg r =
    concat
      (cfg.key_prefix ∷ r.method ∷ ":" ∷ r.path ∷ ":" ∷ header_get "Idempotency-Key" r.header ∷ [])

abbrev pub lock_key_of : String → String
lock_key_of cache_key = append cache_key ":lock"

module _ (redis : Redis) (cfg : StoreConfig) (encode : CachedResponse → Bytes)
    (decode : Bytes → Option CachedResponse) (to_upper : String → String)
    (error_calls : ApiError → List Call) where
  open redis use {State}

  -- `get` with no error and `ok`.
  unfoldable pub find_cached : String → State → Option CachedResponse
  find_cached key s = elim (redis.get key s) [
    | hit b ↦ decode b
    | missing ↦ none
    | get_failed e ↦ none
  ]

  -- `put`, of which the caller drops the error.
  abbrev put : String → CachedResponse → State → State
  put key c s = redis.set key (encode c) cfg.ttl s

  -- The handler runs under the lock; what it sent is stored if it is a success, and the lock is
  -- deleted, also when the handler panics, which skips the store.
  unfoldable pub run_locked :
      {C : Type 0} → String → Handler C → Header → Request C → State → Run × State
  unfolding record_calls
  run_locked cache_key next live r s =
      let run = next r in
      let rec = record_calls (new_recorder live) run.calls in
      let kept =
        if not run.panicked && is_success rec.status then put cache_key (cached_of rec) s else s in
      (run, redis.del (lock_key_of cache_key) kept)

  -- Middleware; `live` is the header map of the writer when the request arrives.
  unfoldable pub idempotent : {C : Type 0} → Handler C → Header → Request C → State → Run × State
  unfolding run_locked find_cached mutating replay
  idempotent next live r s =
      let cache_key = cache_key_of cfg r in
      let (reply, s') = redis.set_nx (lock_key_of cache_key) (b'1' ∷ []) cfg.lock_ttl s in
      let locked = run_locked cache_key next live r s' in
      if header_get "Idempotency-Key" r.header == "" || not (mutating to_upper r.method)
      then (next r, s)
      else elim (find_cached cache_key s) [
        | some cached ↦ (record { calls = replay cached; panicked = false }, s)
        | none ↦ elim reply [
          | lock_failed e ↦ (
            record {
              calls = error_calls (internal "idempotency lock unavailable");
              panicked = false;
            },
            s',
          )
          | busy ↦ (
            record {
              calls = error_calls (conflict "idempotency: a request with this key is in progress");
              panicked = false;
            },
            s',
          )
          | acquired ↦ locked
        ]
      ]
