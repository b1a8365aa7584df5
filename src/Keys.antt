-- ===== src/Keys.antt =====
-- The keys of the program in Redis: each component's function of the same name.
pub mod Distinct
use Prim.Native.String.{◌++◌}
use realtime_notification_pl.Prelude.{String}

unfoldable pub ticket_key : String → String
ticket_key ticket = "ws_ticket:" ++ ticket

unfoldable pub registry_key : String → String
registry_key user_id = "user:" ++ user_id

unfoldable pub liveness_key : String → String
liveness_key instance_id = "instance:" ++ (instance_id ++ ":alive")

unfoldable pub presence_key : String → String
presence_key user_id = "presence:" ++ user_id

unfoldable pub last_seen_key : String → String
last_seen_key user_id = "presence:last_seen:" ++ user_id

unfoldable pub rate_limit_key : String → String
rate_limit_key connection_id = "rate_limit:" ++ connection_id

unfoldable pub dedup_key : String → String
dedup_key notification_id = "notification_dedup:" ++ notification_id
