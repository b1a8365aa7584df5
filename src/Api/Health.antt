-- ===== src/Api/Health.antt =====
-- app/api/routes/health.py
use realtime_notification_pl.Prelude.{ℕ, String, str_eq, ◌&&◌, if◌then◌else◌}
use realtime_notification_pl.Platform.{Platform}
use realtime_notification_pl.World.{Action, Result, ok, err, pure, gets, call, ◌>>=◌, ◌>>◌}
use realtime_notification_pl.Db.Repository.{get_session, execute}
use realtime_notification_pl.Websocket.ConnectionManager.{active_connection_count}

pub record HealthCheck : Type 0 where
  pub status : String
  pub instance_id : String
  pub redis : String
  pub database : String
  pub active_connections : ℕ

abbrev pub overall : String → String → String
overall redis_status database_status =
    if str_eq redis_status "connected" && str_eq database_status "connected"
    then "healthy"
    else "degraded"

module _ ⦃p : Platform⦄ where
  abbrev pub outcome : Result Unit → Result String
  outcome (ok _) = ok "connected"
  outcome (err _) = ok "unavailable"

  -- `try: await wait_for(probe) except Exception`; a timeout is an unanswered call
  abbrev pub probe : Action Unit → Action String
  probe m w = let (r, w') = m w in (outcome r, w')

  unfoldable pub health_check : String → Action HealthCheck
  unfolding active_connection_count
  health_check instance_id = do
    redis_status ← probe (call (λ w. (tt, w)))
    database_status ← probe (get_session >> execute (λ s. (tt, s)))
    active ← gets active_connection_count
    pure (record {
      status = overall redis_status database_status;
      instance_id = instance_id;
      redis = redis_status;
      database = database_status;
      active_connections = active;
    })
