-- ===== src/Tests/Scripts.antt =====
-- The scripts' clients, and what a user sees later.
use realtime_notification_pl.Prelude.{
  ◌≤◌, ◌≡◌, refl, ◌++◌, true, none, some, Option, ◌≢◌, List, [], ◌∷◌, arith,
}
use realtime_notification_pl.Prelude.Lists.{All, length, count}
use realtime_notification_pl.Postgres.{Notification}
use realtime_notification_pl.Platform.Sample.{sample, size}
use realtime_notification_pl.Regex.Matcher.{engine}
use realtime_notification_pl.Keys.{registry_key, liveness_key, dedup_key, rate_limit_key}
use realtime_notification_pl.Core.RateLimiter.{allow, token_bucket, admit, verdict}
use realtime_notification_pl.Core.Idempotency.{has_seen, mark_seen}
use realtime_notification_pl.Pubsub.InstanceRegistry.{lookup, is_alive}
use realtime_notification_pl.Pubsub.Publisher.{publish_to_instance}
use realtime_notification_pl.World.{World, Result, ◌>>=◌, ok, err, http, calm, wait}
use realtime_notification_pl.Db.Repository.{is_unread, create, mark_delivered_live, mark_read}
use realtime_notification_pl.Websocket.Messages.{backlog_message, read_receipt_message}
use realtime_notification_pl.Websocket.MessageRouter.{
  route, route_dict, dispatch, on_receipt, on_read_receipt,
}
use realtime_notification_pl.Api.Delivery.Settled.{acknowledged_is_not_shown}
use realtime_notification_pl.Json.{Json}
use realtime_notification_pl.Websocket.Gateway.{send_backlog, connect}
use realtime_notification_pl.Api.Notifications.{
  Response, create_notification, unless_seen, persist, deliver_live, owning_instance,
}
use realtime_notification_pl.Api.Notifications.Carried.{IsStoredIn}
use realtime_notification_pl.Api.Delivery.Promise.{persisted_is_shown}
use realtime_notification_pl.Schemas.Notifications.{type_field}
use realtime_notification_pl.Scripts.Simulate.{send_notifications}
use realtime_notification_pl.Scripts.Simulate.Limit.{send_notifications-limit}
use realtime_notification_pl.Config.{defaults}
use realtime_notification_pl.App.Wiring.{message_router}
use realtime_notification_pl.App.Wiring as Wiring
use realtime_notification_pl.Presence.Store.{get_status}
use realtime_notification_pl.Websocket.ConnectionManager.{get_socket}
use realtime_notification_pl.Scripts.Demo.{heartbeat_loop}
use realtime_notification_pl.Scripts.Demo.Attended.{heartbeats_keep_alive}
use realtime_notification_pl.Tests.Worlds.{gateway, quiet, connected, body, api}

-- three posts, two seconds apart, against a limit of two in ten seconds
send_notifications-limit_example :
    let (printed, end, w) =
      send_notifications api none
        (λ i. i)
        "||."
        "message.received"
        0
        (1 ∷ 2 ∷ 2 ∷ [])
        (calm quiet) in
    (length printed ≡ 2)
    × (end ≡ err (http 429 "Rate limit exceeded for notification triggers from this caller"))
unfolding type_field size engine
send_notifications-limit_example =
    send_notifications-limit api none (λ i. i) 2 "message.received" refl 1 (2 ∷ 2 ∷ []) quiet
      (λ i lt. omega arith) (omega arith) refl (omega arith) (omega arith)

abbrev told : Response
told = record { notification_id = 9; persisted = true; delivered_live = true }

abbrev later : World
later = (create_notification api none body connected).1

answered : (create_notification api none body connected).0 ≡ ok told
unfolding create_notification allow token_bucket admit verdict unless_seen persist deliver_live
    owning_instance has_seen mark_seen create lookup is_alive publish_to_instance
    mark_delivered_live registry_key liveness_key dedup_key rate_limit_key ◌>>=◌
answered = refl

few : count (is_unread 2) (later.database.rows) ≤ 100
unfolding create_notification allow token_bucket admit verdict unless_seen persist deliver_live
    owning_instance has_seen mark_seen create lookup is_alive publish_to_instance
    mark_delivered_live registry_key liveness_key dedup_key rate_limit_key ◌>>=◌
few = omega arith

persisted_is_shown_example :
    let (r', w') = send_backlog 41 "||." 100 (calm later) in
    (rows : List Notification) × (r' ≡ ok tt)
    × (w'.frames ≡ later.frames ++ (41, backlog_message rows) ∷ [])
    × IsStoredIn body rows
persisted_is_shown_example =
    persisted_is_shown api none body told connected 41 100 later answered refl (λ row m c. m) few

-- ten heartbeats with the default settings, and half a minute less a second
heartbeats_keep_alive_example :
    let w1 = (connect (Wiring.gateway defaults) 41 "||." (calm quiet)).1 in
    let (r, w2) = heartbeat_loop (message_router defaults) "||." "c1" 10 (calm w1) in
    (r ≡ ok tt)
    × ((lookup "||." (calm (wait 29 w2))).0 ≡ ok (some "instance-1"))
    × ((get_status "||." (calm (wait 29 w2))).0 ≡ ok "online")
    × (get_socket "||." w2 ≡ some 41)
heartbeats_keep_alive_example =
    heartbeats_keep_alive defaults "||." "c1" 41 quiet 10 29 (omega arith) (omega arith)
      (omega arith) (omega arith) refl (omega arith)

abbrev handled : Result (Option Json) × World
handled = route gateway.message_router "||." "c1" (read_receipt_message 7) connected

passed : handled.0 ≡ ok none
unfolding route route_dict dispatch on_receipt on_read_receipt mark_read allow token_bucket admit
    verdict registry_key liveness_key rate_limit_key ◌>>=◌
passed = refl

acknowledged_is_not_shown_example :
    let (r', w') = send_backlog 42 "||." 100 (calm handled.1) in
    (rows : List Notification) × (r' ≡ ok tt)
    × (w'.frames ≡ handled.1.frames ++ (42, backlog_message rows) ∷ [])
    × All (λ row. row.notification_id ≢ 7) rows
acknowledged_is_not_shown_example =
    acknowledged_is_not_shown gateway.message_router "c1" 7 2 connected 42 100 handled.1 passed
      (λ row m id. m)
