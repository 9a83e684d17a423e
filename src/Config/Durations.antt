-- ===== src/Config/Durations.antt =====
-- config/appconfig.go, the conversion of configured milliseconds to `time.Duration`.
pub mod Bounds
use hwhkit_go.Prelude.{ℕ, if◌then◌else◌}
use hwhkit_go.Prelude.Int.{ℤ, pos, negsuc, pos_part, Duration, is_positive, wrap64, of_millis}

-- `time.Duration(ms) * time.Millisecond`, which is reached for ms > 0 only.
unfoldable pub ms_duration : ℤ → Duration
unfolding of_millis
ms_duration ms = if is_positive ms then of_millis (pos_part ms) else pos 0

unfoldable pub ms_duration_default : ℤ → Duration → Duration
unfolding of_millis
ms_duration_default ms def = if is_positive ms then of_millis (pos_part ms) else def
