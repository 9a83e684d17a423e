-- ===== src/Idempotency/Replay.antt =====
-- The second request with a key, over a Redis that does not fail and expires nothing meanwhile.
use hwhkit_go.Prelude.{
  String, ◌≡◌, sym, ◌∙◌, ◌≢◌, true, false, not, ◌&&◌, Option, none, some, List, [], ◌∷◌, arith,
  ◌==◌, nat_eq, string_eq, if◌then◌else◌, is_some, eq_iff, Bool-cases, inl, inr, refl,
}
use hwhkit_go.Prelude.Int.{Duration}
use hwhkit_go.Prelude.Text.{Bytes}
use hwhkit_go.Core.ApiError.{ApiError}
use hwhkit_go.Http.{Header, Handler, Request, Call, header_get}
use hwhkit_go.Idempotency.{
  Redis, GetReply, hit, missing, LockReply, acquired, busy, StoreConfig, CachedResponse,
  record_calls, new_recorder, cached_of, replay, mutating, cache_key_of, lock_key_of, find_cached,
  run_locked, idempotent, is_success,
}
use text.Mathlib.TextLemmas.{append_cancel_left, append-nil as text_append-nil, cons-ne-nil}

abbrev pub reply_of : Option Bytes → GetReply
reply_of none = missing
reply_of (some b) = hit b

abbrev pub lock_reply_of : Option Bytes → LockReply
lock_reply_of none = acquired
lock_reply_of (some b) = busy

-- The documented behaviour of GET, SETNX, SET and DEL on a server that answers and whose keys do
-- not expire between the commands in view: `find` is what a key holds.
pub record Reliable (redis : Redis) : Type 0 where
  pub find : redis.State → String → Option Bytes
  pub get_find : (k : String) (s : redis.State) → redis.get k s ≡ reply_of (find s k)
  pub set_nx_reply :
      (k : String) (v : Bytes) (ttl : Duration) (s : redis.State)
      → (redis.set_nx k v ttl s).0 ≡ lock_reply_of (find s k)
  pub set_nx_find :
      (k j : String) (v : Bytes) (ttl : Duration) (s : redis.State)
      → find (redis.set_nx k v ttl s).1 j
        ≡ (if k == j && not (is_some (find s k)) then some v else find s j)
  pub set_find :
      (k j : String) (v : Bytes) (ttl : Duration) (s : redis.State)
      → find (redis.set k v ttl s) j ≡ (if k == j then some v else find s j)
  pub del_find :
      (k j : String) (s : redis.State)
      → find (redis.del k s) j ≡ (if k == j then none else find s j)

pub lock_key-ne : (k : String) → lock_key_of k ≢ k
lock_key-ne k e = cons-ne-nil _ _ (append_cancel_left k ":lock" "" (e ∙ sym (text_append-nil k)))

module _ (redis : Redis) (law : Reliable redis) (cfg : StoreConfig)
    (encode : CachedResponse → Bytes) (decode : Bytes → Option CachedResponse)
    (to_upper : String → String) (error_calls : ApiError → List Call) where
  open redis use {State}

  -- The middleware is on the path: the request has a key and a mutating method.
  pub record Guarded {C : Type 0} (r : Request C) : Type 0 where
    pub keyed : (header_get "Idempotency-Key" r.header == "") ≡ false
    pub mutates : mutating to_upper r.method ≡ true

  abbrev pub recorded : {C : Type 0} → Handler C → Header → Request C → CachedResponse
  recorded next live r = cached_of (record_calls (new_recorder live) (next r).calls)

  -- If the cache has a response for the request it is replayed, and neither the handler runs nor
  -- does the store change.
  pub cached_replays :
      {C : Type 0} (next : Handler C) (live : Header) (r : Request C) (s : State) (b : Bytes)
      (c : CachedResponse)
      → Guarded r
      → law.find s (cache_key_of cfg r) ≡ some b
      → decode b ≡ some c
      → idempotent redis cfg encode decode to_upper error_calls next live r s
        ≡ (record { calls = replay c; panicked = false }, s)
  unfolding idempotent find_cached
  cached_replays next live r s b c g h d =
      ground (arith, g.keyed, g.mutates, law.get_find (cache_key_of cfg r) s)

  -- With a response in neither the cache nor the making, the handler runs once and is answered for.
  first_runs :
      {C : Type 0} (next : Handler C) (live : Header) (r : Request C) (s : State)
      → Guarded r
      → law.find s (cache_key_of cfg r) ≡ none
      → law.find s (lock_key_of (cache_key_of cfg r)) ≡ none
      → idempotent redis cfg encode decode to_upper error_calls next live r s
        ≡ run_locked redis cfg encode decode to_upper error_calls
            (cache_key_of cfg r)
            next
            live
            r
            (redis.set_nx (lock_key_of (cache_key_of cfg r)) (b'1' ∷ []) cfg.lock_ttl s).1
  unfolding idempotent find_cached
  first_runs next live r s g h l = ground (
    arith,
    g.keyed,
    g.mutates,
    law.get_find (cache_key_of cfg r) s,
    law.set_nx_reply (lock_key_of (cache_key_of cfg r)) (b'1' ∷ []) cfg.lock_ttl s,
  )

  run_locked-find :
      {C : Type 0} (next : Handler C) (live : Header) (r : Request C) (s : State) (k : String)
      → (law.find (run_locked redis cfg encode decode to_upper error_calls k next live r s).1 k ≡ (
          if not (next r).panicked && is_success (recorded next live r).status
          then some (encode (recorded next live r))
          else law.find s k))
        × (law.find
              (run_locked redis cfg encode decode to_upper error_calls k next live r s).1
              (lock_key_of k)
            ≡ none)
  unfolding run_locked
  run_locked-find next live r s k =
      let lk = lock_key_of k in
      let v = encode (recorded next live r) in
      let same = (eq_iff lk lk).1 refl in
      let other = eq_iff lk k in
      let ne = lock_key-ne k in
      let kk = (eq_iff k k).1 refl in
      elim (Bool-cases (not (next r).panicked && is_success (recorded next live r).status)) [
        | inl good ↦ ground (
          arith,
          law.del_find lk k (redis.set k v cfg.ttl s),
          law.del_find lk lk (redis.set k v cfg.ttl s),
          law.set_find k k v cfg.ttl s,
        )
        | inr bad ↦ ground (arith, law.del_find lk k s, law.del_find lk lk s)
      ]

  -- Over a Redis that answers and expires no key meanwhile, a first request with a key, under no
  -- lock, whose handler does not panic, whose recorded status is a success and of which what was
  -- recorded survives the encoding, runs its handler and answers with the handler's calls. The lock is
  -- free afterwards, and a later request with the same key, method and path, whatever else it has, is
  -- answered by a replay of what was recorded, whatever its handler is.
  pub first_then_later :
      {C : Type 0} (next later : Handler C) (live live' : Header) (r r' : Request C) (s : State)
      → Guarded r
      → law.find s (cache_key_of cfg r) ≡ none
      → law.find s (lock_key_of (cache_key_of cfg r)) ≡ none
      → decode (encode (recorded next live r)) ≡ some (recorded next live r)
      → (not (next r).panicked && is_success (recorded next live r).status) ≡ true
      → r'.method ≡ r.method
      → r'.path ≡ r.path
      → header_get "Idempotency-Key" r'.header ≡ header_get "Idempotency-Key" r.header
      → (after : State) × (idempotent redis cfg encode decode to_upper error_calls next live r s
          ≡ (next r, after))
        × (law.find after (lock_key_of (cache_key_of cfg r)) ≡ none)
        × (idempotent redis cfg encode decode to_upper error_calls later live' r' after
            ≡ (record { calls = replay (recorded next live r); panicked = false }, after))
  first_then_later next later live live' r r' s g h l d good method path key =
      let k = cache_key_of cfg r in
      let same : cache_key_of cfg r' ≡ k = rw (method, path, key) refl in
      let g' : Guarded r' = record { keyed = rw key (g.keyed); mutates = rw method (g.mutates) } in
      let s' = (redis.set_nx (lock_key_of k) (b'1' ∷ []) cfg.lock_ttl s).1 in
      let runs = first_runs next live r s g h l in
      let (stored, freed) = run_locked-find next live r s' k in
      (
        (run_locked redis cfg encode decode to_upper error_calls k next live r s').1,
        unfold run_locked in runs,
        freed,
        cached_replays later live' r'
            (run_locked redis cfg encode decode to_upper error_calls k next live r s').1
            (encode (recorded next live r)) (recorded next live r) g' (rw same (ground arith)) d,
      )

  -- A first request with a key, under no lock, whose handler panics or whose recorded status is no
  -- success, leaves neither a lock nor a cached response, so that the next one runs its handler.
  pub failure_not_cached :
      {C : Type 0} (next : Handler C) (live : Header) (r : Request C) (s : State)
      → Guarded r
      → law.find s (cache_key_of cfg r) ≡ none
      → law.find s (lock_key_of (cache_key_of cfg r)) ≡ none
      → (not (next r).panicked && is_success (recorded next live r).status) ≡ false
      → (after : State) × (idempotent redis cfg encode decode to_upper error_calls next live r s
          ≡ (next r, after))
        × (law.find after (lock_key_of (cache_key_of cfg r)) ≡ none)
        × (law.find after (cache_key_of cfg r) ≡ none)
  failure_not_cached next live r s g h l bad =
      let k = cache_key_of cfg r in
      let s' = (redis.set_nx (lock_key_of k) (b'1' ∷ []) cfg.lock_ttl s).1 in
      let runs = first_runs next live r s g h l in
      let (stored, freed) = run_locked-find next live r s' k in
      (
        (run_locked redis cfg encode decode to_upper error_calls k next live r s').1,
        unfold run_locked in runs,
        freed,
        ground (
          arith,
          law.set_nx_find (lock_key_of k) k (b'1' ∷ []) cfg.lock_ttl s,
          eq_iff (lock_key_of k) k,
          lock_key-ne k,
        ),
      )
