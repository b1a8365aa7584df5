-- ===== src/Scripts/Demo/Receives.antt =====
-- A notification for a user whose client sends its heartbeats, from the connection on.
use realtime_notification_pl.Prelude.{ℕ, ◌<◌, String, ◌≡◌, ◌∙◌, true, false, Option, none, List, ap}
use realtime_notification_pl.Postgres.{NewNotification, has_id}
use realtime_notification_pl.Platform.{Platform}
use realtime_notification_pl.Config.{Settings}
use realtime_notification_pl.App.Wiring.{api}
use realtime_notification_pl.Keys.{registry_key, liveness_key, rate_limit_key, dedup_key}
use realtime_notification_pl.World.{World, Socket, ok, calm}
use realtime_notification_pl.Core.RateLimiter.{allow}
use realtime_notification_pl.Pubsub.InstanceRegistry.{exists}
use realtime_notification_pl.Api.Notifications.{caller_key}
use realtime_notification_pl.Api.Delivery.Live.{Delivered, create_notification-deliver}
use realtime_notification_pl.Scripts.Demo.Attendance.{Event, IsTimely, attendance}
use realtime_notification_pl.Scripts.Demo.Attendance.Ages.{attendance-Kept, attendance-connections}

module _ ⦃p : Platform⦄ (settings : Settings) (connection_id : String)
    (body : NewNotification) where
  -- An instance starts its liveness loop, and a user connects to it under the canonical spelling of
  -- their id. Then heartbeats of the client and refreshes of the liveness loop come in any order and
  -- at any times, but no heartbeat later than the lifetime of the user's entry after the one before,
  -- and none within the limiter's window of the one before; and at the end neither that lifetime nor
  -- the lifetime of the liveness key has passed since the last of each. No heartbeat is refused, and a
  -- notification with a new id that is then posted, to any instance that finds these two entries in
  -- Redis, is received: the caller is told that it is stored and delivered, one message is published,
  -- and the user's instance sends one frame that carries it to the socket. The limiter grants at
  -- least one message in a window and has counted none of the connection before, the caller's limit
  -- is not reached, and every call is answered.
  pub heartbeats_receive :
      (client : Option String) (socket : Socket) (w : World) (es : List Event) (q : World)
      → 0 < settings.rate_limit_messages
      → 0 < settings.rate_limit_window_seconds
      → ((d : ℕ) → p.redis.peek w.cache d (rate_limit_key connection_id) ≡ none)
      → IsTimely settings 0 0 es
      → let u = p.uuid_text body.user_id in
        let (r, held) = attendance settings u connection_id socket es (calm w) in
        p.redis.peek q.cache 0 (registry_key u) ≡ p.redis.peek held.cache 0 (registry_key u)
        → p.redis.peek q.cache 0 (liveness_key settings.instance_id)
          ≡ p.redis.peek held.cache 0 (liveness_key settings.instance_id)
        → 0 < settings.api_rate_limit_window_seconds
        → 0 < settings.idempotency_ttl_seconds
        → (allow (api settings).api_rate_limiter (caller_key client) (calm q)).0 ≡ ok true
        → p.redis.peek q.cache 0 (dedup_key (p.uuid_text body.notification_id)) ≡ none
        → has_id body.notification_id (p.postgres.notifications q.database) ≡ false
        → (r ≡ ok tt) × Delivered (api settings) client body q settings.instance_id held socket
  heartbeats_receive client socket w es q some_left window first timely same_owner same_life opens
        kept granted unseen fresh =
      let u = p.uuid_text body.user_id in
      let held = (attendance settings u connection_id socket es (calm w)).1 in
      let (done, known) =
        attendance-Kept settings u connection_id socket es w some_left window first timely in
      (
        done,
        create_notification-deliver (api settings) client body q opens settings.instance_id held
            socket kept granted unseen fresh
            (same_owner ∙ known.owner, ap exists (same_life ∙ known.alive))
            (attendance-connections settings u connection_id socket es w),
      )
