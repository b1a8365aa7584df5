-- ===== src/Tests/Sessions.antt =====
-- Messages of a client, and the end of an instance.
use realtime_notification_pl.Prelude.{◌≡◌, refl, true, none, [], ◌∷◌}
use realtime_notification_pl.Json.{Json, str, obj, done, field}
use realtime_notification_pl.Platform.Sample.{sample}
use realtime_notification_pl.World.{ok, calm}
use realtime_notification_pl.Presence.Store.{get_status}
use realtime_notification_pl.Pubsub.InstanceRegistry.{lookup}
use realtime_notification_pl.Websocket.ConnectionManager.{is_connected}
use realtime_notification_pl.Websocket.MessageRouter.{route}
use realtime_notification_pl.Websocket.MessageRouter.Ownership.{Reached, route-Reached}
use realtime_notification_pl.Websocket.Gateway.{frame, session_body}
use realtime_notification_pl.Websocket.Gateway.Isolation.{others, session_body-others}
use realtime_notification_pl.Api.Shutdown.{shutdown}
use realtime_notification_pl.Api.Shutdown.Forgotten.{shutdown_forgets}
use realtime_notification_pl.Tests.Worlds.{busy, connected, gateway}

held : is_connected "||." connected ≡ true
unfolding is_connected
held = refl

shutdown_forgets_example :
    let (r, w') = shutdown (calm connected) in
    (r ≡ ok tt)
    × (w'.connections ≡ [])
    × ((get_status "||." (calm w')).0 ≡ ok "offline")
    × ((lookup "||." (calm w')).0 ≡ ok none)
shutdown_forgets_example = shutdown_forgets "||." connected held

-- user 2 acknowledges notification 7
abbrev acknowledgement : Json
acknowledgement =
    obj (field "type" (str "read_receipt") (field "notification_id" (str "|||||||.") done))

route-Reached_example :
    Reached 2 connected.database
      (route gateway.message_router "||." "c" acknowledgement connected).1.database
route-Reached_example =
    route-Reached gateway.message_router "||." "c" 2 acknowledgement connected refl

-- twice in one session, with calls that fail
session_body-others_example :
    others 2
      (session_body gateway 41 "||." "c"
        (frame acknowledgement ∷ frame acknowledgement ∷ [])
        busy).1.database
    ≡ others 2 busy.database
session_body-others_example =
    session_body-others gateway 41 "||." "c" 2 (frame acknowledgement ∷ frame acknowledgement ∷ [])
      busy refl
