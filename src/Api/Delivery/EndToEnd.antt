-- ===== src/Api/Delivery/EndToEnd.antt =====
-- From one instance's publish to another instance's socket.
use text.Mathlib.TextPositions.{eq_refl}
use realtime_notification_pl.Prelude.{ℕ, String, ◌≡◌, ◌≢◌, refl, some, List, ◌++◌, [], ◌∷◌}
use realtime_notification_pl.Prelude.Dict as Dict
use realtime_notification_pl.Prelude.Int.{sub_ℕ}
use realtime_notification_pl.Json.{Json, str, obj, field, done}
use realtime_notification_pl.Postgres.{Uuid, Notification}
use realtime_notification_pl.Keys.Distinct.{eq_false}
use realtime_notification_pl.Platform.{Platform}
use realtime_notification_pl.World.{World, Socket, ok, calm, ◌>>=◌}
use realtime_notification_pl.Pubsub.Publisher.{instance_channel, instance_channel-injective}
use realtime_notification_pl.Pubsub.Subscriber.{received, listen}
use realtime_notification_pl.Websocket.ConnectionManager.{send_json}
use realtime_notification_pl.Websocket.Messages.{notification_message}
use realtime_notification_pl.Api.Notifications.{live_message}
use realtime_notification_pl.Api.Delivery.{deliver}

module _ ⦃p : Platform⦄ where
  -- the notification as it stands in a live message
  abbrev pub live_notification : Notification → Json
  live_notification row = obj (
      field "notification_id" (str (p.uuid_text row.notification_id)) (
        field "user_id" (str (p.uuid_text row.user_id)) (
          field "type" (str row.type) (
            field "payload" (obj row.payload)
              (field "created_at" (str (p.isoformat row.created_at)) done)))))

  -- The instance that holds the user's socket sends exactly one frame, to that socket, and observes
  -- the latency.
  deliver-live_message :
      (row : Notification) (u : Uuid) (sent_at : ℕ) (socket : Socket) (w : World)
      → Dict.lookup (p.uuid_text u) w.connections ≡ some socket
      → let (r, w') = deliver (live_message row u sent_at) (calm w) in
        (r ≡ ok tt)
        × (w'.frames ≡ w.frames ++ (socket, notification_message (live_notification row)) ∷ [])
        × (w'.metrics.delivery_latency_seconds
            ≡ w.metrics.delivery_latency_seconds ++ sub_ℕ w.now sent_at ∷ [])
  unfolding deliver send_json ◌>>=◌
  deliver-live_message row u sent_at socket w h = rw h (refl, refl, refl)

  -- what one publish puts into a channel
  abbrev pub live_publish : String → Notification → Uuid → ℕ → List (String × p.Wire)
  live_publish owner row u sent_at =
      (instance_channel owner, p.dumps (live_message row u sent_at)) ∷ []

  -- A publish to one instance reaches no other.
  pub elsewhere :
      (owner instance : String) (row : Notification) (u : Uuid) (sent_at : ℕ) (w : World)
      → owner ≢ instance
      → listen deliver
          (received (instance_channel instance) (live_publish owner row u sent_at))
          (calm w)
        ≡ (ok tt, calm w)
  unfolding listen ◌>>=◌
  elsewhere owner instance row u sent_at w ne = rw (
      eq_false (instance_channel owner) (instance_channel instance)
        (λ e. ne (instance_channel-injective owner instance e)))

  -- What one instance publishes for a user, the instance that it was published to hands to the
  -- socket that the user has there, if the socket takes it: one frame, with the latency observed.
  pub hand_over :
      (owner : String) (row : Notification) (u : Uuid) (sent_at : ℕ) (socket : Socket) (w : World)
      → Dict.lookup (p.uuid_text u) w.connections ≡ some socket
      → let (r, w') =
          listen deliver
            (received (instance_channel owner) (live_publish owner row u sent_at))
            (calm w) in
        (r ≡ ok tt)
        × (w'.frames ≡ w.frames ++ (socket, notification_message (live_notification row)) ∷ [])
        × (w'.metrics.delivery_latency_seconds
            ≡ w.metrics.delivery_latency_seconds ++ sub_ℕ w.now sent_at ∷ [])
  unfolding listen ◌>>=◌
  hand_over owner row u sent_at socket w h =
      let (_, frames, latency) = deliver-live_message row u sent_at socket w h in
      rw (eq_refl (instance_channel owner), p.is_unicode-dumps, p.loads-dumps)
        (refl, frames, latency)
