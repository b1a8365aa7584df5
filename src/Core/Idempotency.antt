-- ===== src/Core/Idempotency.antt =====
-- app/core/idempotency.py
pub mod Window
use realtime_notification_pl.Prelude.{ℕ, Bool, true, false, Option, none, some}
use realtime_notification_pl.Redis.{Value, plain}
use realtime_notification_pl.Postgres.{Uuid}
use realtime_notification_pl.Platform.{Platform}
use realtime_notification_pl.Keys.{dedup_key}
use realtime_notification_pl.World.{Action, pure, command_, query, ◌>>=◌}

pub record IdempotencyGuard : Type 0 where
  pub ttl_seconds : ℕ

-- `value is not None`
abbrev pub is_some : Option Value → Bool
is_some none = false
is_some (some _) = true

module _ ⦃p : Platform⦄ where
  unfoldable pub has_seen : Uuid → Action Bool
  has_seen notification_id = do
    value ← query (λ s. p.redis.peek s 0 (dedup_key (p.uuid_text notification_id)))
    pure (is_some value)

  unfoldable pub mark_seen : IdempotencyGuard → Uuid → Action Unit
  mark_seen self notification_id =
      command_
        (p.redis.set_ex (dedup_key (p.uuid_text notification_id)) (plain "1") self.ttl_seconds)
