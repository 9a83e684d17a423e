-- ===== src/RateLimit/Script.antt =====
-- The Lua script of ratelimit/middleware.go, over exact numbers: a number of tokens is kept as that
-- number times the window, which makes it whole. Limit, window and burst are at least 1; zero and
-- negative ones, where the script divides by zero or counts backwards, are outside the model, and so
-- is the rounding of Lua's doubles. The times that the callers pass and the clock by which Redis
-- expires keys are one clock, in milliseconds.
use hwhkit_go.Prelude.{
  ℕ, ◌+◌, ◌-◌, ◌*◌, ◌/◌, Option, none, some, ltb, leb, nat_eq, string_eq, if◌then◌else◌,
}
use Prim.Native.Nat.{min}

pub record Limits : Type 0 where
  pub limit : ℕ
  pub window : ℕ
  pub burst : ℕ

-- The hash that the script keeps under its key: `tokens` times the window, `ts`, and the time at
-- which PEXPIRE lets the key go.
pub record Bucket : Type 0 where
  pub level : ℕ
  pub ts : ℕ
  pub expires : ℕ

pub data Reply : Type 0 where
  allowed : Reply
  denied : ℕ → Reply

-- HMGET finds nothing once the key has expired.
abbrev pub alive : ℕ → Option Bucket → Option Bucket
alive now none = none
alive now (some b) = if leb b.expires now then none else some b

abbrev pub stored_level : Limits → Option Bucket → ℕ
stored_level l none = l.burst * l.window
stored_level l (some b) = b.level

abbrev pub stored_ts : ℕ → Option Bucket → ℕ
stored_ts now none = now
stored_ts now (some b) = b.ts

-- `math.max(0, now - ts)` is the truncated difference.
unfoldable pub refilled : Limits → ℕ → Option Bucket → ℕ
refilled l now b = min (l.burst * l.window) (stored_level l b + (now - stored_ts now b) * l.limit)

-- `math.ceil((1 - tokens) / (limit / window))`
abbrev pub ceil_div : ℕ → ℕ → ℕ
ceil_div a b = (a + (b - 1)) / b

unfoldable pub take_token : Limits → ℕ → Option Bucket → Reply × Bucket
take_token l now stored =
    let tokens = refilled l now (alive now stored) in
    if ltb tokens l.window
    then (
      denied (ceil_div (l.window - tokens) l.limit),
      record { level = tokens; ts = now; expires = now + l.window * 2 },
    )
    else (allowed, record { level = tokens - l.window; ts = now; expires = now + l.window * 2 })
