-- ===== src/Scripts/Demo.antt =====
-- scripts/ws_client_demo.py: the loop that keeps a connection alive. What the client prints is left out.
pub mod Attended
pub mod Attendance
pub mod Receives
use realtime_notification_pl.Prelude.{ℕ, zero, suc, String}
use realtime_notification_pl.Platform.{Platform}
use realtime_notification_pl.World.{Action, pure, modify, wait, ◌>>=◌, ◌>>◌}
use realtime_notification_pl.Websocket.Messages.{heartbeat_message}
use realtime_notification_pl.Websocket.MessageRouter.{MessageRouter, route}

module _ ⦃p : Platform⦄ where
  -- rounds of `heartbeat_loop`, each frame routed by the gateway as it arrives
  unfoldable pub heartbeat_loop : MessageRouter → String → String → ℕ → Action Unit
  heartbeat_loop self user_id connection_id zero = pure tt
  heartbeat_loop self user_id connection_id (suc n) = do
    modify (wait 15)
    route self user_id connection_id heartbeat_message
    heartbeat_loop self user_id connection_id n
