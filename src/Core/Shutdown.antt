-- ===== src/Core/Shutdown.antt =====
-- core/shutdown/shutdown.go. The token's state is whether its context is cancelled and whether the
-- sync.Once has run.
use hwhkit_go.Prelude.{Bool, true, false, if◌then◌else◌}

pub record Token : Type 0 where
  pub cancelled : Bool
  pub once_done : Bool

unfoldable pub new_token : Token
new_token = record { cancelled = false; once_done = false }

-- Cancel: `t.once.Do(t.cancel)`.
unfoldable pub cancel : Token → Token
cancel t = if t.once_done then t else record { cancelled = true; once_done = true }

-- Cancelled: whether `ctx.Done()` is closed.
unfoldable pub is_cancelled : Token → Bool
is_cancelled t = t.cancelled
