-- ===== src/Api/Notifications.antt =====
-- app/api/routes/notifications.py: POST /notifications.
pub mod Guarded
pub mod Carried
pub mod Durable
pub mod Answered
pub mod Outcomes
pub mod Stages
pub mod Interleaving
use realtime_notification_pl.Prelude.{
  ℕ, ◌+◌, String, Bool, true, false, Option, none, some, if◌then◌else◌,
}
use realtime_notification_pl.Json.{Json, str, num, obj, done, field}
use realtime_notification_pl.Postgres.{Uuid, Notification, NewNotification}
use realtime_notification_pl.Platform.{Platform}
use realtime_notification_pl.World.{Action, http, pure, raise, gets, count, ◌>>=◌, ◌>>◌}
use realtime_notification_pl.Core.RateLimiter.{RateLimiter, allow}
use realtime_notification_pl.Core.Idempotency.{IdempotencyGuard, has_seen, mark_seen}
use realtime_notification_pl.Pubsub.InstanceRegistry.{lookup, is_alive}
use realtime_notification_pl.Pubsub.Publisher.{publish_to_instance}
use realtime_notification_pl.Db.Repository.{get_session, create, mark_delivered_live}

-- NotificationCreateResponse
pub record Response : Type 0 where
  pub notification_id : Uuid
  pub persisted : Bool
  pub delivered_live : Bool

pub record Api : Type 0 where
  pub api_rate_limiter : RateLimiter
  pub idempotency_guard : IdempotencyGuard

-- `request.client.host if request.client else "unknown"`
abbrev pub caller_key : Option String → String
caller_key none = "unknown"
caller_key (some host) = host

abbrev pub duplicate : Uuid → Response
duplicate n = record { notification_id = n; persisted = false; delivered_live = false }

module _ ⦃p : Platform⦄ where
  -- the message on the instance's channel
  abbrev pub live_message : Notification → Uuid → ℕ → Json
  live_message row user_id now = obj (
      field "user_id" (str (p.uuid_text user_id)) (
        field "published_at" (num now) (
          field "notification"
            (obj (
              field "notification_id" (str (p.uuid_text row.notification_id)) (
                field "user_id" (str (p.uuid_text row.user_id)) (
                  field "type" (str row.type) (
                    field "payload" (obj row.payload)
                      (field "created_at" (str (p.isoformat row.created_at)) done))))))
            done)))

  -- an owner that is not alive counts as none
  abbrev pub alive_or_none : String → Bool → Option String
  alive_or_none owner true = some owner
  alive_or_none owner false = none

  abbrev pub if_alive : Option String → Action (Option String)
  if_alive none = pure none
  if_alive (some owner) = do alive ← is_alive owner; pure (alive_or_none owner alive)

  unfoldable pub owning_instance : Uuid → Action (Option String)
  owning_instance user_id = do owner ← lookup (p.uuid_text user_id); if_alive owner

  abbrev pub publish_to : NewNotification → Notification → Option String → Action Bool
  publish_to body row none = pure false
  publish_to body row (some owner) = do
    now ← gets (λ w. w.now)
    publish_to_instance owner (live_message row body.user_id now)
    mark_delivered_live row.notification_id
    count (λ m. record m {
      notifications_delivered_live_total = m.notifications_delivered_live_total + 1;
    })
    pure true

  unfoldable pub deliver_live : NewNotification → Notification → Action Bool
  unfolding owning_instance
  deliver_live body row = do owner ← owning_instance body.user_id; publish_to body row owner

  -- after the insert, on its answer
  abbrev pub on_row : NewNotification → Option Notification → Action Response
  on_row body none = pure (duplicate body.notification_id)
  on_row body (some row) = do
    count (λ m. record m { notifications_persisted_total = m.notifications_persisted_total + 1 })
    delivered_live ← deliver_live body row
    pure (record {
      notification_id = body.notification_id;
      persisted = true;
      delivered_live = delivered_live;
    })

  unfoldable pub persist : Api → NewNotification → Action Response
  persist self body = do
    get_session
    row ← create body
    mark_seen self.idempotency_guard body.notification_id
    on_row body row

  unfoldable pub unless_seen : Api → NewNotification → Action Response
  unless_seen self body = do
    seen ← has_seen body.notification_id
    if seen then pure (duplicate body.notification_id) else persist self body

  abbrev pub when_allowed : Api → NewNotification → Bool → Action Response
  when_allowed self body true = unless_seen self body
  when_allowed self body false =
      raise (http 429 "Rate limit exceeded for notification triggers from this caller")

  unfoldable pub create_notification : Api → Option String → NewNotification → Action Response
  create_notification self client body = do
    allowed ← allow self.api_rate_limiter (caller_key client)
    when_allowed self body allowed
