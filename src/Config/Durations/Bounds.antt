-- ===== src/Config/Durations/Bounds.antt =====
-- When a configured number of milliseconds is the duration that it names.
use hwhkit_go.Prelude.{ℕ, ◌-◌, ◌*◌, ◌^◌, ◌≤◌, ◌<◌, ◌≡◌, ◌⊎◌, inl, refl, arith}
use hwhkit_go.Prelude.Int.{ℤ, pos, negsuc, pos_part, wrap64, millisecond}
use hwhkit_go.Config.Durations.{ms_duration, ms_duration_default}

-- The largest number of milliseconds that an int64 of nanoseconds can hold.
abbrev pub max_millis : ℕ
max_millis = 9_223_372_036_854

-- Up to 9223372036854 ms the duration is exactly ms * 10^6 ns, 0 included; a negative ms gives 0.
ms_duration_exact :
    (ms : ℤ) → pos_part ms ≤ max_millis → ms_duration ms ≡ pos (pos_part ms * millisecond)
unfolding ms_duration wrap64
ms_duration_exact (pos n) h = ground arith
ms_duration_exact (negsuc n) h = refl

-- With ms up to 9223372036854 and a default that is not negative, the duration is the default if ms
-- is not positive, and ms * 10^6 ns if ms is positive.
pub ms_duration_default_bounds :
    (ms : ℤ) (def : ℕ)
    → pos_part ms ≤ max_millis
    → (ms_duration_default ms (pos def) ≡ pos def) × (pos_part ms ≡ 0)
      ⊎ (ms_duration_default ms (pos def) ≡ pos (pos_part ms * millisecond)) × (0 < pos_part ms)
unfolding ms_duration_default wrap64
ms_duration_default_bounds (pos n) def h = ground arith
ms_duration_default_bounds (negsuc n) def h = inl (refl, refl)

-- From 9223372036855 ms up to twice that range the int64 product overflows, and the duration that
-- is returned is negative.
pub ms_duration_overflow :
    (n : ℕ) → max_millis < n → n * millisecond < 2 ^ 64 → (k : ℕ) × (ms_duration (pos n) ≡ negsuc k)
unfolding ms_duration wrap64
ms_duration_overflow n lo hi = (2 ^ 64 - 1 - n * millisecond, ground arith)
