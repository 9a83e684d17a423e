-- ===== src/RateLimit/Waiting.antt =====
-- The wait that a refusal returns is the time until the next token.
use Prim.Native.Nat.{min}
use hwhkit_go.Prelude.{
  ℕ, ◌+◌, ◌-◌, ◌*◌, ◌≤◌, ◌<◌, ◌≡◌, sym, ap, ◌∙◌, Bool, true, false, Option, some, arith, leb,
  nat_eq, string_eq, if◌then◌else◌,
}
use native.Mathlib.Nat.{mul-le-mul_right}
use hwhkit_go.RateLimit.Script.{
  ceil_div, Limits, Bucket, Reply, allowed, denied, alive, refilled, take_token,
}

-- `q` is the least number with a ≤ q * b.
ceil_div_enough : (a b : ℕ) → 0 < b → a ≤ ceil_div a b * b
ceil_div_enough a b h = grind arith

ceil_div_least : (a b q : ℕ) → 0 < b → q < ceil_div a b → q * b < a
ceil_div_least a b q h lt = grind arith

ceil_div_bound : (a b : ℕ) → 0 < b → ceil_div a b ≤ a
ceil_div_bound a b h = grind arith

abbrev pub is_allowed : Reply → Bool
is_allowed allowed = true
is_allowed (denied w) = false

abbrev pub wait_of : Reply → ℕ
wait_of allowed = 0
wait_of (denied w) = w

-- The bucket that a refusal leaves.
abbrev refused : Limits → ℕ → ℕ → Bucket
refused l now tokens = record { level = tokens; ts = now; expires = now + l.window * 2 }

later :
    (l : Limits) (now t tokens : ℕ)
    → refilled l (now + t) (alive (now + t) (some (refused l now tokens))) ≡ (
        if leb (l.window * 2) t
        then l.burst * l.window
        else min (l.burst * l.window) (tokens + t * l.limit))
unfolding refilled
later l now t tokens = ground arith

is_allowed_when :
    (l : Limits) (now : ℕ) (stored : Option Bucket)
    → is_allowed (take_token l now stored).0 ≡ leb l.window (refilled l now (alive now stored))
unfolding take_token
is_allowed_when l now stored = ground arith

by_cases :
    (w full tokens gained enough t c : ℕ)
    → tokens < w
    → w ≤ full
    → w - tokens ≤ enough
    → c ≤ w - tokens
    → (t < c → gained < w - tokens)
    → (c ≤ t → enough ≤ gained)
    → leb w (if leb (w * 2) t then full else min full (tokens + gained)) ≡ leb c t
by_cases w full tokens gained enough t c h1 h2 h3 h4 h5 h6 = ground arith

admits :
    (l : Limits) (now t tokens : ℕ)
    → 0 < l.limit
    → 0 < l.burst
    → tokens < l.window
    → is_allowed (take_token l (now + t) (some (refused l now tokens))).0
      ≡ leb (ceil_div (l.window - tokens) l.limit) t
admits l now t tokens hl hb ht =
    let full : l.window ≤ l.burst * l.window = grind arith in
    let c = ceil_div (l.window - tokens) l.limit in
    let enough = ceil_div_enough (l.window - tokens) l.limit hl in
    let least = ceil_div_least (l.window - tokens) l.limit t hl in
    let bound = ceil_div_bound (l.window - tokens) l.limit hl in
    let more : (c ≤ t → c * l.limit ≤ t * l.limit) = λ h. mul-le-mul_right l.limit h in
    rw (is_allowed_when l (now + t) (some (refused l now tokens)), later l now t tokens)
      (by_cases l.window (l.burst * l.window) tokens (t * l.limit) (c * l.limit) t c ht full enough
        bound least more)

take_few :
    (l : Limits) (now : ℕ) (stored : Option Bucket)
    → refilled l now (alive now stored) < l.window
    → take_token l now stored ≡ (
      denied (ceil_div (l.window - refilled l now (alive now stored)) l.limit),
      refused l now (refilled l now (alive now stored)),
    )
unfolding take_token
take_few l now stored h = ground arith

few_when_refused :
    (l : Limits) (now : ℕ) (stored : Option Bucket) (w : ℕ)
    → (take_token l now stored).0 ≡ denied w
    → refilled l now (alive now stored) < l.window
few_when_refused l now stored w e =
    let no : is_allowed (take_token l now stored).0 ≡ false = ap is_allowed e in
    ground (arith, is_allowed_when l now stored)

-- In the exact numbers of the model, after a refusal with wait w the next request of the key, when
-- nothing comes between, is admitted if it comes w or more milliseconds later, and refused if it
-- comes sooner.
wait_exact :
    (l : Limits) (now : ℕ) (stored : Option Bucket) (w t : ℕ)
    → 0 < l.limit
    → 0 < l.burst
    → (take_token l now stored).0 ≡ denied w
    → is_allowed (take_token l (now + t) (some (take_token l now stored).1)).0 ≡ leb w t
wait_exact l now stored w t hl hb e =
    let tokens = refilled l now (alive now stored) in
    let few = few_when_refused l now stored w e in
    let left = take_few l now stored few in
    let is : ceil_div (l.window - tokens) l.limit ≡ w =
      sym (ap (λ p. wait_of p.0) left) ∙ ap wait_of e in
    rw (left, sym is) (admits l now t tokens hl hb few)
