-- ===== src/Tests/Demo.antt =====
-- A client with its heartbeats, and a notification that it receives.
use realtime_notification_pl.Prelude.{◌≡◌, refl, true, none, List, [], ◌∷◌, arith}
use realtime_notification_pl.Redis.{plain}
use realtime_notification_pl.Platform.Sample.{sample, spell}
use realtime_notification_pl.Config.{defaults}
use realtime_notification_pl.App.Wiring.{api}
use realtime_notification_pl.Keys.{
  registry_key, liveness_key, presence_key, last_seen_key, rate_limit_key, dedup_key,
}
use realtime_notification_pl.World.{World, ok, calm, ◌>>=◌}
use realtime_notification_pl.Core.RateLimiter.{allow, token_bucket, admit, verdict}
use realtime_notification_pl.Presence.Store.{set_online, refresh, touch_last_seen}
use realtime_notification_pl.Presence.Manager.{mark_online, heartbeat}
use realtime_notification_pl.Pubsub.InstanceRegistry as InstanceRegistry
use realtime_notification_pl.Pubsub.InstanceRegistry.{register, mark_alive}
use realtime_notification_pl.Websocket.ConnectionManager.{add}
use realtime_notification_pl.Websocket.Heartbeat.{handle, start}
use realtime_notification_pl.Websocket.MessageRouter.{
  route, route_dict, dispatch, limited, on_heartbeat,
}
use realtime_notification_pl.Websocket.Gateway.{connect}
use realtime_notification_pl.Api.Delivery.Live.{Delivered}
use realtime_notification_pl.Scripts.Demo.Attendance.{
  Event, pause, beat, refreshed, IsTimely, attend, attendance,
}
use realtime_notification_pl.Scripts.Demo.Receives.{heartbeats_receive}
use realtime_notification_pl.Tests.Worlds.{quiet, body}

-- the liveness loop refreshes every 5 seconds, and the client sends its heartbeat every 15
abbrev course : List Event
course =
    pause 5
    ∷ refreshed
    ∷ pause 5
    ∷ refreshed
    ∷ pause 5
    ∷ beat
    ∷ refreshed
    ∷ pause 5
    ∷ refreshed
    ∷ pause 5
    ∷ refreshed
    ∷ pause 5
    ∷ refreshed
    ∷ beat
    ∷ pause 4
    ∷ []

timely : IsTimely defaults 0 0 course
timely = (omega arith, omega arith, (omega arith, omega arith, (omega arith, omega arith)))

abbrev holding : World
holding = (attendance defaults "||." "c1" 41 course (calm quiet)).1

-- another instance, alive by a key of its own in the same Redis, and with no rows
abbrev posting : World
posting = record quiet {
  cache = sample.redis.set_ex (liveness_key "instance-2") (plain "1") 15 holding.cache;
}

ready :
    (sample.redis.peek posting.cache 0 (registry_key "||.")
      ≡ sample.redis.peek holding.cache 0 (registry_key "||."))
    × (sample.redis.peek posting.cache 0 (liveness_key "instance-1")
        ≡ sample.redis.peek holding.cache 0 (liveness_key "instance-1"))
    × ((allow (api defaults).api_rate_limiter "unknown" (calm posting)).0 ≡ ok true)
    × (sample.redis.peek posting.cache 0 (dedup_key (spell 9)) ≡ none)
unfolding attendance attend start mark_alive connect add register mark_online set_online route
    route_dict dispatch limited on_heartbeat handle heartbeat refresh InstanceRegistry.refresh
    touch_last_seen allow token_bucket admit verdict registry_key liveness_key presence_key
    last_seen_key rate_limit_key dedup_key ◌>>=◌
ready = (refl, refl, refl, refl)

heartbeats_receive_example :
    ((attendance defaults "||." "c1" 41 course (calm quiet)).0 ≡ ok tt)
    × Delivered (api defaults) none body posting "instance-1" holding 41
heartbeats_receive_example =
    heartbeats_receive defaults "c1" body none 41 quiet course posting (omega arith) (omega arith)
      (λ d. refl) timely ready.0 ready.1 (omega arith) (omega arith) ready.2 ready.3 refl
