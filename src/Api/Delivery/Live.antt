-- ===== src/Api/Delivery/Live.antt =====
-- From POST /notifications on one instance to the socket on another, when the services answer.
use realtime_notification_pl.Prelude.{
  ◌<◌, String, ◌≡◌, refl, sym, ap, ◌∙◌, true, false, Option, none, some, [], ◌∷◌, ◌++◌,
}
use realtime_notification_pl.Prelude.Dict as Dict
use realtime_notification_pl.Postgres.{Notification, NewNotification, has_id}
use realtime_notification_pl.Platform.{Platform}
use realtime_notification_pl.Keys.{dedup_key, liveness_key}
use realtime_notification_pl.Keys.Distinct.{keys}
use realtime_notification_pl.World.{World, Socket, ok, calm, ◌>>=◌}
use realtime_notification_pl.World.Frame.{calm-eq}
use realtime_notification_pl.World.Quiet.{Untold, Untold-Keeping, Within-command}
use realtime_notification_pl.Core.RateLimiter.{allow}
use realtime_notification_pl.Core.RateLimiter.Frame.{allow-SameBut, allow-Within}
use realtime_notification_pl.Core.RateLimiter.Window.{allow-calm}
use realtime_notification_pl.Core.Idempotency.{has_seen}
use realtime_notification_pl.Pubsub.Publisher.{instance_channel}
use realtime_notification_pl.Pubsub.Subscriber.{received, listen}
use realtime_notification_pl.Websocket.Messages.{notification_message}
use realtime_notification_pl.Api.Notifications.{
  Api, caller_key, live_message, create_notification, unless_seen, persist,
}
use realtime_notification_pl.Api.Notifications.Carried.{Carries, IsStoredIn, new_row-Carries}
use realtime_notification_pl.Api.Notifications.Durable.{persisted-IsStoredIn}
use realtime_notification_pl.Api.Notifications.Outcomes.{LiveOn, answer, persist_live}
use realtime_notification_pl.Api.Delivery.{deliver}
use realtime_notification_pl.Api.Delivery.EndToEnd.{live_notification, live_publish, hand_over}

module _ ⦃p : Platform⦄ (self : Api) (client : Option String) (body : NewNotification) where
  -- the world after the call of the limiter
  abbrev limited : World → World
  limited w = (allow self.api_rate_limiter (caller_key client) (calm w)).1

  create_notification-unless_seen :
      (w : World)
      → (allow self.api_rate_limiter (caller_key client) (calm w)).0 ≡ ok true
      → create_notification self client body (calm w) ≡ unless_seen self body (calm (limited w))
  unfolding create_notification ◌>>=◌
  create_notification-unless_seen w granted = rw granted (
      ap (unless_seen self body)
        (sym (calm-eq (limited w) (allow-calm self.api_rate_limiter (caller_key client) w))))

  unless_seen-persist :
      (w : World)
      → p.redis.peek w.cache 0 (dedup_key (p.uuid_text body.notification_id)) ≡ none
      → unless_seen self body (calm w) ≡ persist self body (calm w)
  unfolding unless_seen has_seen ◌>>=◌
  unless_seen-persist w unseen = rw unseen refl

  limited-Untold : (w : World) → Untold (calm w) (limited w)
  limited-Untold w =
      (allow-Within Untold self.api_rate_limiter (caller_key client) Untold-Keeping
          Within-command).at
        (calm w)

  module _ (w : World) where
    -- the caller is told that the notification is stored and delivered, a row that carries it is
    -- committed, one message is published, to the owner's channel, and on it the owner sends one
    -- frame to the socket, with a row that carries the notification
    abbrev pub Delivered : String → World → Socket → Type 0
    Delivered owner v socket =
        let (r, w') = create_notification self client body (calm w) in
        (r ≡ ok (answer body.notification_id true true))
        × IsStoredIn body (p.postgres.notifications w'.database)
        × (message : p.Wire) × (w'.published
            ≡ w.published ++ (instance_channel owner, message) ∷ [])
        × (row : Notification) × Carries body row
        × (let (r', v') =
              listen deliver
                (received (instance_channel owner) ((instance_channel owner, message) ∷ []))
                (calm v) in
            (r' ≡ ok tt)
            × (v'.frames ≡ v.frames ++ (socket, notification_message (live_notification row)) ∷ []))

  module _ (w : World) (pos : 0 < self.api_rate_limiter.window_seconds) where
    limited-LiveOn :
        (owner : String) → LiveOn w body.user_id owner → LiveOn (limited w) body.user_id owner
    limited-LiveOn owner h = (
      allow-SameBut self.api_rate_limiter (caller_key client) w pos 0 _ (simp keys) ∙ h.0,
      rw
          (allow-SameBut self.api_rate_limiter (caller_key client) w pos 0 (liveness_key owner)
            (simp keys))
          h.1,
    )

    -- A notification with a new id, posted by a caller whose limit is not reached, for a user whose
    -- instance is alive and holds a socket of the user: the caller is told that it is stored and
    -- delivered, a row that carries it is committed, one message is published, to the channel of that
    -- instance, and on it the instance sends one frame to that socket, with a row that carries the
    -- notification. Every call is answered, on both instances.
    pub create_notification-deliver :
        (owner : String) (v : World) (socket : Socket)
        → 0 < self.idempotency_guard.ttl_seconds
        → (allow self.api_rate_limiter (caller_key client) (calm w)).0 ≡ ok true
        → p.redis.peek w.cache 0 (dedup_key (p.uuid_text body.notification_id)) ≡ none
        → has_id body.notification_id (p.postgres.notifications w.database) ≡ false
        → LiveOn w body.user_id owner
        → Dict.lookup (p.uuid_text body.user_id) v.connections ≡ some socket
        → Delivered w owner v socket
    create_notification-deliver owner v socket ttl granted unseen fresh live held =
        let w1 = limited w in
        let (quiet, same) = limited-Untold w in
        let row = p.postgres.new_row body w1.database in
        let unseen1 : p.redis.peek w1.cache 0 (dedup_key (p.uuid_text body.notification_id))
            ≡ none =
          allow-SameBut self.api_rate_limiter (caller_key client) w pos 0 _ (simp keys) ∙ unseen in
        let (told, published, _) =
          persist_live self body w1 ttl owner (rw same fresh) (limited-LiveOn owner live) in
        let steps : create_notification self client body (calm w) ≡ persist self body (calm w1) =
          create_notification-unless_seen w granted ∙ unless_seen-persist w1 unseen1 in
        let (done, frames, _) = hand_over owner row body.user_id w1.now socket v held in
        let answered = ap (λ x. x.0) steps ∙ told in
        (
          answered,
          persisted-IsStoredIn self client body _ (calm w) answered refl,
          p.dumps (live_message row body.user_id w1.now),
          ap (λ x. x.1.published) steps
              ∙ published
              ∙ ap (λ ms. ms ++ live_publish owner row body.user_id w1.now) quiet,
          row,
          new_row-Carries body w1.database,
          (done, frames),
        )
