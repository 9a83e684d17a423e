-- ===== src/Tenant/Interleaving.antt =====
-- Goroutines that call Get of one lazy scope for one tenant at the same time, while others put and
-- remove the values of other tenants. The read, the factory and the store are steps of their own.
use mathlib.Core.Option.{some-injective}
use hwhkit_go.Prelude.{
  ℕ, String, ◌≡◌, sym, ◌∙◌, ◌≢◌, Bool, true, false, Option, none, some, arith, eq_iff, ◌==◌, nat_eq,
  string_eq, if◌then◌else◌, Option-cases,
}
use hwhkit_go.Prelude.Dict
use hwhkit_go.Prelude.Dict.{get-put, get-remove}
use hwhkit_go.Tenant.{Scope, put_value, remove_value, store_made}

-- What is stored behind the factory is what the call returns, and a value that is there stays.
stored_is_returned :
    {T : Type 0} (s : Scope T) (tid : String) (v : Option T)
    → Dict.get tid (store_made s tid v).1.values ≡ some (store_made s tid v).0.0
unfolding store_made
stored_is_returned s tid v =
    ground (arith, Option-cases (Dict.get tid s.values), get-put tid tid v s.values, eq_iff tid tid)

stored_stays :
    {T : Type 0} (s : Scope T) (tid : String) (v old : Option T)
    → Dict.get tid s.values ≡ some old
    → Dict.get tid (store_made s tid v).1.values ≡ some old
unfolding store_made
stored_stays s tid v old there = ground (arith, there)

-- Where a call of Get is: before its read, after a miss, with a value from the factory, and
-- returned, with the pointer and whether there is one.
pub data Phase (T : Type 0) : Type 0 where
  waiting missed : Phase T
  made : T → Phase T
  returned : Option T → Bool → Phase T

abbrev pub moved : {T : Type 0} → (ℕ → Phase T) → ℕ → Phase T → ℕ → Phase T
moved phase i p j = if i == j then p else phase j

pub record World (T : Type 0) : Type 0 where
  pub scope : Scope T
  pub phase : ℕ → Phase T

module _ {T : Type 0} (tid : String) where
  -- The factory may return another value, or an error or nil, at each call.
  pub data Step : World T → World T → Type 0 where
    hit :
        (w : World T) (i : ℕ) (v : Option T)
        → w.phase i ≡ waiting
        → Dict.get tid w.scope.values ≡ some v
        → Step w (record w { phase = moved w.phase i (returned v true) })
    miss :
        (w : World T) (i : ℕ)
        → w.phase i ≡ waiting
        → Dict.get tid w.scope.values ≡ none
        → Step w (record w { phase = moved w.phase i missed })
    make :
        (w : World T) (i : ℕ) (v : T)
        → w.phase i ≡ missed
        → Step w (record w { phase = moved w.phase i (made v) })
    give_up :
        (w : World T) (i : ℕ)
        → w.phase i ≡ missed
        → Step w (record w { phase = moved w.phase i (returned none false) })
    store :
        (w : World T) (i : ℕ) (v : T)
        → w.phase i ≡ made v
        → Step w (record {
          scope = (store_made w.scope tid (some v)).1;
          phase = moved w.phase i (
              returned (store_made w.scope tid (some v)).0.0 (store_made w.scope tid (some v)).0.1);
        })
    put_other :
        (w : World T) (other : String) (v : Option T)
        → other ≢ tid
        → Step w (record w { scope = put_value w.scope other v })
    remove_other :
        (w : World T) (other : String)
        → other ≢ tid
        → Step w (record w { scope = remove_value w.scope other })

  pub data Reach (start : World T) : World T → Type 0 where
    here : Reach start start
    next : {w u : World T} → Reach start w → Step w u → Reach start u

  -- A call that has returned a value has returned the one that the scope has.
  abbrev pub Kept : World T → Type 0
  Kept w =
      (i : ℕ) (v : Option T) → w.phase i ≡ returned v true → Dict.get tid w.scope.values ≡ some v

  Step-Kept : {w u : World T} → Step w u → Kept w → Kept u
  unfolding put_value remove_value
  Step-Kept (hit w n v p found) kept i x h = ground (arith, found, kept i x)
  Step-Kept (miss w n p found) kept i x h = ground (arith, kept i x)
  Step-Kept (make w n v p) kept i x h = ground (arith, kept i x)
  Step-Kept (give_up w n p) kept i x h = ground (arith, kept i x)
  Step-Kept (store w n v p) kept i x h = ground (
    arith,
    kept i x,
    stored_is_returned w.scope tid (some v),
    stored_stays w.scope tid (some v) x,
  )
  Step-Kept (put_other w other v ne) kept i x h =
      ground (arith, kept i x, eq_iff other tid, get-put other tid v w.scope.values)
  Step-Kept (remove_other w other ne) kept i x h =
      ground (arith, kept i x, eq_iff other tid, get-remove other tid w.scope.values)

  Reach-Kept : {start w : World T} → Kept start → Reach start w → Kept w
  Reach-Kept idle here = idle
  Reach-Kept idle (next r st) = Step-Kept st (Reach-Kept idle r)

  -- However the calls of Get for a tenant interleave, with the factory making a value of its own for
  -- each call that misses, all calls that return a value return the same one, which the scope keeps,
  -- if nobody puts or removes the value of that tenant and no call had returned before.
  pub Reach-one_value :
      {start w : World T} (i j : ℕ) (v u : Option T)
      → ((k : ℕ) → start.phase k ≡ waiting)
      → Reach start w
      → w.phase i ≡ returned v true
      → w.phase j ≡ returned u true
      → (v ≡ u) × (Dict.get tid w.scope.values ≡ some v)
  Reach-one_value i j v u idle reach hi hj =
      let kept = Reach-Kept (λ k x h. ground (arith, idle k, h)) reach in
      (some-injective v u (sym (kept i v hi) ∙ kept j u hj), kept i v hi)
