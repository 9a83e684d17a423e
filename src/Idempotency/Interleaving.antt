-- ===== src/Idempotency/Interleaving.antt =====
-- Requests with one key at the same time. Each of the exchanges with Redis is one step, and the
-- handler runs between the lock and the store. A key may expire between two steps, which is its
-- deletion; the lock is deleted at the end whoever has it then.
use hwhkit_go.Prelude.{
  ℕ, suc, String, ◌≡◌, ◌≢◌, Bool, true, false, Option, none, some, [], ◌∷◌, arith, eq_iff, ◌==◌,
  nat_eq, string_eq, if◌then◌else◌, is_some,
}
use hwhkit_go.Prelude.Text.{Bytes}
use hwhkit_go.Idempotency.{Redis, StoreConfig, CachedResponse, lock_key_of}
use hwhkit_go.Idempotency.Replay.{Reliable, lock_key-ne}

-- Where a request is: before its GET, after a miss, with the lock and its handler running, after
-- its store, and done.
pub data Phase : Type 0 where
  waiting missed running stored done : Phase

abbrev pub holds : Phase → Bool
holds running = true
holds stored = true
holds _ = false

abbrev pub moved : (ℕ → Phase) → ℕ → Phase → ℕ → Phase
moved phase i p j = if i == j then p else phase j

module _ (redis : Redis) (law : Reliable redis) (cfg : StoreConfig)
    (decode : Bytes → Option CachedResponse) (k : String) where
  open redis use {State}

  -- The store, the phase of each request, and how many handlers were started.
  pub record World : Type 0 where
    pub store : State
    pub phase : ℕ → Phase
    pub runs : ℕ

  -- Whether GET of the cache key returns a response.
  abbrev pub readable : Option Bytes → Bool
  readable none = false
  readable (some b) = is_some (decode b)

  pub data Step : World → World → Type 0 where
    found :
        (w : World) (i : ℕ)
        → w.phase i ≡ waiting
        → readable (law.find w.store k) ≡ true
        → Step w (record w { phase = moved w.phase i done })
    miss :
        (w : World) (i : ℕ)
        → w.phase i ≡ waiting
        → readable (law.find w.store k) ≡ false
        → Step w (record w { phase = moved w.phase i missed })
    lock :
        (w : World) (i : ℕ)
        → w.phase i ≡ missed
        → law.find w.store (lock_key_of k) ≡ none
        → Step w (record w {
          store = (redis.set_nx (lock_key_of k) (b'1' ∷ []) cfg.lock_ttl w.store).1;
          phase = moved w.phase i running;
          runs = suc w.runs;
        })
    refused :
        (w : World) (i : ℕ) (b : Bytes)
        → w.phase i ≡ missed
        → law.find w.store (lock_key_of k) ≡ some b
        → Step w (record w { phase = moved w.phase i done })
    keep :
        (w : World) (i : ℕ) (v : Bytes)
        → w.phase i ≡ running
        → Step w
            (record w { store = redis.set k v cfg.ttl w.store; phase = moved w.phase i stored })
    skip :
        (w : World) (i : ℕ)
        → w.phase i ≡ running
        → Step w (record w { phase = moved w.phase i stored })
    unlock :
        (w : World) (i : ℕ)
        → w.phase i ≡ stored
        → Step w
            (record w { store = redis.del (lock_key_of k) w.store; phase = moved w.phase i done })
    expire_lock : (w : World) → Step w (record w { store = redis.del (lock_key_of k) w.store })
    expire_response : (w : World) → Step w (record w { store = redis.del k w.store })

  pub data Reach (start : World) : World → Type 0 where
    here : Reach start start
    next : {w u : World} → Reach start w → Step w u → Reach start u

  -- The lock does not expire while a request has it.
  abbrev pub OnTime : {w u : World} → Step w u → Type 0
  OnTime (expire_lock w) = (i : ℕ) → holds (w.phase i) ≡ false
  OnTime _ = Unit

  -- No lock expires while a request has it.
  abbrev pub Prompt : {start w : World} → Reach start w → Type 0
  Prompt here = Unit
  Prompt (next r st) = Prompt r × OnTime st

  -- A request that has the lock is the only one, and the lock key is there.
  pub record Exclusive (w : World) : Type 0 where
    pub alone : (i j : ℕ) → holds (w.phase i) ≡ true → holds (w.phase j) ≡ true → i ≡ j
    pub locked :
        (i : ℕ) → holds (w.phase i) ≡ true → is_some (law.find w.store (lock_key_of k)) ≡ true

  Step-Exclusive : {w u : World} (st : Step w u) → OnTime st → Exclusive w → Exclusive u
  Step-Exclusive (found w n p f) t e = record {
    alone = λ i j. ground (arith, e.alone i j);
    locked = λ i. ground (arith, e.locked i);
  }
  Step-Exclusive (miss w n p f) t e = record {
    alone = λ i j. ground (arith, e.alone i j);
    locked = λ i. ground (arith, e.locked i);
  }
  Step-Exclusive (lock w n p f) t e = record {
    alone = λ i j. ground (arith, e.locked i, e.locked j);
    locked = λ i. ground (
      arith,
      law.set_nx_find (lock_key_of k) (lock_key_of k) (b'1' ∷ []) cfg.lock_ttl w.store,
      eq_iff (lock_key_of k) (lock_key_of k),
    );
  }
  Step-Exclusive (refused w n b p f) t e = record {
    alone = λ i j. ground (arith, e.alone i j);
    locked = λ i. ground (arith, e.locked i);
  }
  Step-Exclusive (keep w n v p) t e = record {
    alone = λ i j. ground (arith, e.alone i j, e.alone n j, e.alone i n);
    locked = λ i. ground (
      arith,
      e.locked i,
      e.locked n,
      law.set_find k (lock_key_of k) v cfg.ttl w.store,
      eq_iff k (lock_key_of k),
    );
  }
  Step-Exclusive (skip w n p) t e = record {
    alone = λ i j. ground (arith, e.alone i j, e.alone n j, e.alone i n);
    locked = λ i. ground (arith, e.locked i, e.locked n);
  }
  Step-Exclusive (unlock w n p) t e = record {
    alone = λ i j. ground (arith, e.alone i j);
    locked = λ i. ground (arith, e.alone i n);
  }
  Step-Exclusive (expire_lock w) t e = record {
    alone = λ i j. ground (arith, t i);
    locked = λ i. ground (arith, t i);
  }
  Step-Exclusive (expire_response w) t e = record {
    alone = λ i j. ground (arith, e.alone i j);
    locked = λ i. ground (
      arith,
      e.locked i,
      law.del_find k (lock_key_of k) w.store,
      eq_iff k (lock_key_of k),
      lock_key-ne k,
    );
  }

  -- However the requests interleave from a state in which none has the lock, as long as no lock
  -- expires while a request has it, at most one of them is between its lock and its unlock, and while
  -- one is the lock key is set.
  pub Reach-Exclusive :
      {start w : World}
      → ((i : ℕ) → holds (start.phase i) ≡ false)
      → (r : Reach start w) → Prompt r
      → Exclusive w
  Reach-Exclusive idle here t = record {
    alone = λ i j. ground (arith, idle i);
    locked = λ i. ground (arith, idle i);
  }
  Reach-Exclusive idle (next r st) t = Step-Exclusive st t.1 (Reach-Exclusive idle r t.0)

  -- If the lock expires while the handler of the request that has it runs, a second request takes it,
  -- and both handlers run at once.
  pub lock_expires :
      (start : World) (i j : ℕ)
      → i ≢ j
      → start.phase i ≡ waiting
      → start.phase j ≡ waiting
      → law.find start.store k ≡ none
      → law.find start.store (lock_key_of k) ≡ none
      → (w : World) × Reach start w × (w.phase i ≡ running) × (w.phase j ≡ running)
  lock_expires start i j ne pi pj empty free =
      let lk = lock_key_of k in
      let w1 = record start { phase = moved start.phase i missed } in
      let w2 = record w1 { phase = moved w1.phase j missed } in
      let locked = (redis.set_nx lk (b'1' ∷ []) cfg.lock_ttl start.store).1 in
      let w3 = record w2 { store = locked; phase = moved w2.phase i running; runs = suc w2.runs } in
      let r3 : Reach start w3 =
        next
          (next (next here (miss start i pi (ground arith)))
            (miss w1 j (ground arith) (ground arith)))
          (lock w2 i (ground arith) free) in
      (
        _,
        next (next r3 (expire_lock w3)) (
            lock (record w3 { store = redis.del lk locked }) j (ground arith)
              (ground (arith, law.del_find lk lk locked, eq_iff lk lk))),
        ground arith,
        ground arith,
      )

  after_both : World → ℕ → ℕ → Bytes → World
  after_both start i j v =
      let lk = lock_key_of k in
      let locked = (redis.set_nx lk (b'1' ∷ []) cfg.lock_ttl start.store).1 in
      let freed = redis.del lk (redis.set k v cfg.ttl locked) in
      record {
        store = (redis.set_nx lk (b'1' ∷ []) cfg.lock_ttl freed).1;
        phase =
            moved
              (moved
                (moved (moved (moved (moved start.phase i missed) j missed) i running) i stored) i
                done)
              j running;
        runs = suc (suc start.runs);
      }
