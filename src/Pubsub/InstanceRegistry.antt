-- ===== src/Pubsub/InstanceRegistry.antt =====
-- app/pubsub/instance_registry.py
pub mod Entries
use realtime_notification_pl.Prelude.{ℕ, String, Bool, true, false, Option, none, some}
use realtime_notification_pl.Redis.{Value, plain}
use realtime_notification_pl.Platform.{Platform}
use realtime_notification_pl.Keys.{registry_key, liveness_key}
use realtime_notification_pl.World.{Action, pure, command_, query, ◌>>=◌}
use realtime_notification_pl.Presence.Store.{decode}

module _ ⦃p : Platform⦄ where
  unfoldable pub register : String → String → ℕ → Action Unit
  register user_id instance_id ttl_seconds =
      command_ (p.redis.set_ex (registry_key user_id) (plain instance_id) ttl_seconds)

  unfoldable pub refresh : String → ℕ → Action Unit
  refresh user_id ttl_seconds = command_ (p.redis.expire (registry_key user_id) ttl_seconds)

  unfoldable pub unregister : String → Action Unit
  unregister user_id = command_ (p.redis.delete (registry_key user_id))

  abbrev pub owner_of : Option Value → Option String
  owner_of none = none
  owner_of (some v) = some (decode v)

  unfoldable pub lookup : String → Action (Option String)
  lookup user_id = do
    instance_id ← query (λ s. p.redis.peek s 0 (registry_key user_id))
    pure (owner_of instance_id)

  unfoldable pub mark_alive : String → ℕ → Action Unit
  mark_alive instance_id ttl_seconds =
      command_ (p.redis.set_ex (liveness_key instance_id) (plain "1") ttl_seconds)

  -- EXISTS
  abbrev pub exists : Option Value → Bool
  exists none = false
  exists (some _) = true

  unfoldable pub is_alive : String → Action Bool
  is_alive instance_id = query (λ s. exists (p.redis.peek s 0 (liveness_key instance_id)))
