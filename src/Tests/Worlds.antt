-- ===== src/Tests/Worlds.antt =====
-- Worlds for the tests: user 2 is connected to instance i2, which is alive.
use realtime_notification_pl.Prelude.{false, none, [], ◌∷◌}
use realtime_notification_pl.Json.{done}
use realtime_notification_pl.Redis.{plain}
use realtime_notification_pl.Postgres.{Notification, NewNotification}
use realtime_notification_pl.Postgres.Table as PostgresTable
use realtime_notification_pl.Platform.Sample.{sample, spell}
use realtime_notification_pl.Keys.{registry_key, liveness_key}
use realtime_notification_pl.World.{World, Metrics, Process, refused, lost, answered}
use realtime_notification_pl.Core.RateLimiter.{RateLimiter}
use realtime_notification_pl.Presence.Manager.{PresenceManager}
use realtime_notification_pl.Websocket.Heartbeat.{HeartbeatHandler, InstanceLivenessLoop}
use realtime_notification_pl.Websocket.Gateway.{Gateway}
use realtime_notification_pl.Api.Notifications.{Api}

abbrev zeros : Metrics
zeros = record {
  active_connections = 0;
  notifications_persisted_total = 0;
  notifications_delivered_live_total = 0;
  ws_messages_received_total = [];
  rate_limited_total = 0;
  read_receipts_recorded_total = 0;
  delivery_latency_seconds = [];
}

-- before the start
abbrev pub idle : Process
idle = record {
  subscriber_task = none;
  reconciliation_task = none;
  liveness_task = none;
  subscribed = none;
  drift_warnings = [];
  request_log = [];
  redis_closed = false;
  engines = 0;
  engine = none;
  session_factory = none;
  disposed = [];
}

abbrev pub quiet : World
quiet = record {
  cache = λ k. none;
  database = PostgresTable.empty;
  session = PostgresTable.empty;
  published = [];
  connections = [];
  frames = [];
  closed = [];
  metrics = zeros;
  process = idle;
  now = 100;
  schedule = [];
}

-- a stored notification 7 of user 2, at time 5, and one of user 3 at the same time
abbrev pub seven : Notification
seven = record {
  id = 1;
  notification_id = 7;
  user_id = 2;
  type = "message.received";
  payload = done;
  created_at = 5;
  delivered_live = false;
  read_at = none;
}

abbrev pub eight : Notification
eight = record seven { id = 2; notification_id = 8; user_id = 3 }

abbrev pub tables : PostgresTable.Tables
tables = record { rows = seven ∷ eight ∷ []; receipts = []; clock = 6 }

-- the services fail twice
abbrev pub busy : World
busy = record quiet {
  database = tables;
  session = tables;
  schedule = answered ∷ lost ∷ refused ∷ [];
}

abbrev pub connected : World
connected = record quiet {
  cache =
      sample.redis.set_ex (registry_key (spell 2)) (plain "i2") 30
        (sample.redis.set_ex (liveness_key "i2") (plain "1") 15 quiet.cache);
  database = tables;
  session = tables;
  connections = ("||.", 41) ∷ [];
}

abbrev pub body : NewNotification
body = record { notification_id = 9; user_id = 2; type = "message.received"; payload = done }

abbrev pub limiter : RateLimiter
limiter = record { limit = 2; window_seconds = 10 }

abbrev pub api : Api
api = record { api_rate_limiter = limiter; idempotency_guard = record { ttl_seconds = 300 } }

abbrev pub manager : PresenceManager
manager = record { ttl_seconds = 30 }

abbrev pub heartbeats : HeartbeatHandler
heartbeats = record { presence = manager; ttl_seconds = 30 }

abbrev pub loop : InstanceLivenessLoop
loop = record { instance_id = "i2"; ttl_seconds = 15 }

abbrev pub gateway : Gateway
gateway = record {
  instance_id = "i2";
  presence_ttl_seconds = 30;
  backlog_limit = 100;
  presence_manager = manager;
  message_router = record {
    heartbeat_handler = heartbeats;
    presence_manager = manager;
    rate_limiter = limiter;
  };
}
