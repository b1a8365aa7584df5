-- ===== src/Scripts/Demo/Attendance.antt =====
-- A connection with its heartbeats, on an instance whose liveness loop runs: the course of what
-- happens there, in any order.
pub mod Ages
use realtime_notification_pl.Prelude.{ℕ, ◌+◌, ◌≤◌, ◌<◌, String, List, [], ◌∷◌, arith}
use realtime_notification_pl.Platform.{Platform}
use realtime_notification_pl.Config.{Settings}
use realtime_notification_pl.App.Wiring.{gateway, message_router, liveness_loop}
use realtime_notification_pl.World.{Socket, Action, pure, modify, wait, ◌>>=◌, ◌>>◌}
use realtime_notification_pl.Pubsub.InstanceRegistry.{mark_alive}
use realtime_notification_pl.Websocket.Heartbeat.{start}
use realtime_notification_pl.Websocket.Messages.{heartbeat_message}
use realtime_notification_pl.Websocket.MessageRouter.{route}
use realtime_notification_pl.Websocket.Gateway.{connect}

-- what happens at the instance: time passes, a heartbeat of the client arrives, the liveness loop
-- refreshes the instance's key
pub data Event : Type 0 where
  pause : ℕ → Event
  beat refreshed : Event

module _ (settings : Settings) where
  -- `a` seconds after the last heartbeat and `b` seconds after the last refresh: no heartbeat comes
  -- within the window of the one before, nor after the lifetime of the entry, and at the end neither
  -- the lifetime of the entry nor that of the liveness key has passed
  abbrev pub IsTimely : ℕ → ℕ → List Event → Type 0
  IsTimely a b [] =
      (a < settings.presence_ttl_seconds) × (b < settings.instance_liveness_ttl_seconds)
  IsTimely a b (pause n ∷ es) = IsTimely (a + n) (b + n) es
  IsTimely a b (beat ∷ es) =
      (settings.rate_limit_window_seconds ≤ a)
      × (a < settings.presence_ttl_seconds)
      × IsTimely 0 b es
  IsTimely a b (refreshed ∷ es) = IsTimely a 0 es

  -- the lifetimes of a timely course are positive
  pub timely_positive :
      (a b : ℕ) (es : List Event)
      → IsTimely a b es
      → (0 < settings.presence_ttl_seconds) × (0 < settings.instance_liveness_ttl_seconds)
  timely_positive a b [] h = (omega (arith, h.0), omega (arith, h.1))
  timely_positive a b (pause n ∷ es) h = timely_positive (a + n) (b + n) es h
  timely_positive a b (beat ∷ es) h = timely_positive 0 b es h.2
  timely_positive a b (refreshed ∷ es) h = timely_positive a 0 es h

module _ ⦃p : Platform⦄ (settings : Settings) (user_id connection_id : String) where
  abbrev pub renew_liveness : Action Unit
  renew_liveness = mark_alive settings.instance_id settings.instance_liveness_ttl_seconds

  unfoldable pub attend : List Event → Action Unit
  attend [] = pure tt
  attend (pause n ∷ es) = do modify (wait n); attend es
  attend (beat ∷ es) = do
    route (message_router settings) user_id connection_id heartbeat_message
    attend es
  attend (refreshed ∷ es) = do renew_liveness; attend es

  -- the instance starts its liveness loop, the user connects, and the events come
  unfoldable pub attendance : Socket → List Event → Action Unit
  attendance socket es = do
    start (liveness_loop settings)
    connect (gateway settings) socket user_id
    attend es
