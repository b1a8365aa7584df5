-- ===== src/App/Lifespan.antt =====
-- app/main.py: `lifespan`, from the start of an instance to its end.
pub mod Apart
pub mod Release
pub mod Ending
use realtime_notification_pl.Prelude.{true}
use realtime_notification_pl.Config.{Settings}
use realtime_notification_pl.Platform.{Platform}
use realtime_notification_pl.World.{World, Action, call, finally, ◌>>=◌, ◌>>◌}
use realtime_notification_pl.Db.Connection.{put_process, dispose_engine}
use realtime_notification_pl.Pubsub.Subscriber.{start_subscriber, stop_subscriber}
use realtime_notification_pl.Websocket.Heartbeat.{
  start_reconciliation, stop_reconciliation, start, stop_liveness,
}
use realtime_notification_pl.Api.Shutdown.{shutdown}
use realtime_notification_pl.App.Wiring.{liveness_loop}

module _ ⦃p : Platform⦄ where
  unfoldable pub start_up : Settings → Action Unit
  start_up settings = do
    start_subscriber settings.instance_id
    start_reconciliation
    start (liveness_loop settings)

  -- `await redis.aclose()`
  abbrev pub close_redis : Action Unit
  close_redis = call (λ w. (tt, put_process (λ g. record g { redis_closed = true }) w))

  -- after the connections and their entries
  unfoldable pub release : Action Unit
  release = do stop_liveness; stop_reconciliation; stop_subscriber; close_redis; dispose_engine

  unfoldable pub tear_down : Action Unit
  tear_down = do shutdown; release

  -- `serve` is what happens between the start and the end
  unfoldable pub lifespan : Settings → Action Unit → Action Unit
  lifespan settings serve = do start_up settings; finally serve tear_down
