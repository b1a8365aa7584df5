-- ===== src/App/Wiring.antt =====
-- app/main.py: the parts that `lifespan` makes of the settings.
use realtime_notification_pl.Prelude.{◌*◌}
use realtime_notification_pl.Config.{Settings}
use realtime_notification_pl.Core.RateLimiter.{RateLimiter}
use realtime_notification_pl.Core.Idempotency.{IdempotencyGuard}
use realtime_notification_pl.Presence.Manager.{PresenceManager}
use realtime_notification_pl.Websocket.AuthHandshake.{WsTicketAuth}
use realtime_notification_pl.Websocket.Heartbeat.{
  HeartbeatHandler, ReconciliationLoop, InstanceLivenessLoop,
}
use realtime_notification_pl.Websocket.MessageRouter.{MessageRouter}
use realtime_notification_pl.Websocket.Gateway.{Gateway}
use realtime_notification_pl.Api.Notifications.{Api}

abbrev pub presence_manager : Settings → PresenceManager
presence_manager settings = record { ttl_seconds = settings.presence_ttl_seconds }

abbrev pub ticket_auth : Settings → WsTicketAuth
ticket_auth settings = record { ttl_seconds = settings.ws_ticket_ttl_seconds }

abbrev pub rate_limiter : Settings → RateLimiter
rate_limiter settings = record {
  limit = settings.rate_limit_messages;
  window_seconds = settings.rate_limit_window_seconds;
}

abbrev pub api_rate_limiter : Settings → RateLimiter
api_rate_limiter settings = record {
  limit = settings.api_rate_limit_requests;
  window_seconds = settings.api_rate_limit_window_seconds;
}

abbrev pub idempotency_guard : Settings → IdempotencyGuard
idempotency_guard settings = record { ttl_seconds = settings.idempotency_ttl_seconds }

abbrev pub heartbeat_handler : Settings → HeartbeatHandler
heartbeat_handler settings = record {
  presence = presence_manager settings;
  ttl_seconds = settings.presence_ttl_seconds;
}

abbrev pub message_router : Settings → MessageRouter
message_router settings = record {
  heartbeat_handler = heartbeat_handler settings;
  presence_manager = presence_manager settings;
  rate_limiter = rate_limiter settings;
}

abbrev pub reconciliation_loop : Settings → ReconciliationLoop
reconciliation_loop settings = record {
  instance_id = settings.instance_id;
  interval_seconds = settings.heartbeat_interval_seconds * 2;
}

abbrev pub liveness_loop : Settings → InstanceLivenessLoop
liveness_loop settings = record {
  instance_id = settings.instance_id;
  ttl_seconds = settings.instance_liveness_ttl_seconds;
}

-- what the routes read from `app.state`
abbrev pub gateway : Settings → Gateway
gateway settings = record {
  instance_id = settings.instance_id;
  presence_ttl_seconds = settings.presence_ttl_seconds;
  backlog_limit = settings.backlog_limit;
  presence_manager = presence_manager settings;
  message_router = message_router settings;
}

abbrev pub api : Settings → Api
api settings = record {
  api_rate_limiter = api_rate_limiter settings;
  idempotency_guard = idempotency_guard settings;
}
