-- ===== src/Core/RateLimiter.antt =====
-- app/core/rate_limiter.py: the counter script and the limiter, which serves the connections and
-- the callers of the API.
pub mod Window
pub mod Frame
use realtime_notification_pl.Prelude.{
  ℕ, String, Bool, true, false, Option, none, some, ltb, ◌==◌, if◌then◌else◌,
}
use realtime_notification_pl.Platform.{Platform}
use realtime_notification_pl.Keys.{rate_limit_key}
use realtime_notification_pl.World.{Action, unavailable, pure, raise, command, ◌>>=◌}

pub record RateLimiter : Type 0 where
  pub limit : ℕ
  pub window_seconds : ℕ

module _ ⦃p : Platform⦄ where
  -- the script after its INCR; a failing INCR ends it with an error
  unfoldable pub admit : String → ℕ → ℕ → Option ℕ → p.redis.State → Option ℕ × p.redis.State
  admit key limit window none s = (none, s)
  admit key limit window (some count) s = (
    some (if ltb limit count then 0 else 1),
    if count == 1 then p.redis.expire key window s else s,
  )

  -- _TOKEN_BUCKET_SCRIPT, which Redis runs as one step
  unfoldable pub token_bucket : String → ℕ → ℕ → p.redis.State → Option ℕ × p.redis.State
  unfolding admit
  token_bucket key limit window s =
      let (count, s') = p.redis.incr key s in admit key limit window count s'

  -- `bool(result)`
  unfoldable pub verdict : Option ℕ → Action Bool
  verdict none = raise unavailable
  verdict (some n) = pure (if n == 0 then false else true)

  unfoldable pub allow : RateLimiter → String → Action Bool
  unfolding token_bucket verdict
  allow self connection_id = do
    result ← command (token_bucket (rate_limit_key connection_id) self.limit self.window_seconds)
    verdict result
