-- ===== src/Api/Shutdown.antt =====
-- app/main.py: what `lifespan` does to the connections when the instance shuts down.
pub mod Forgotten
use realtime_notification_pl.Prelude.{String, List, [], ◌∷◌}
use realtime_notification_pl.Platform.{Platform}
use realtime_notification_pl.World.{Action, pure, ◌>>=◌, ◌>>◌}
use realtime_notification_pl.Presence.Manager.{mark_offline}
use realtime_notification_pl.Pubsub.InstanceRegistry.{unregister}
use realtime_notification_pl.Websocket.ConnectionManager.{close_all}

module _ ⦃p : Platform⦄ where
  unfoldable pub forget_each : List String → Action Unit
  forget_each [] = pure tt
  forget_each (user_id ∷ rest) = do unregister user_id; mark_offline user_id; forget_each rest

  unfoldable pub shutdown : Action Unit
  shutdown = do disconnected_user_ids ← close_all 1001; forget_each disconnected_user_ids
