-- ===== src/Websocket/MessageRouter.antt =====
-- app/websocket/message_router.py, with the read-receipt callback of app/main.py.
pub mod Ownership
pub mod Acknowledged
use Prim.Native.String as Text
use realtime_notification_pl.Prelude.{
  ℕ, ◌+◌, String, Bool, true, false, Option, none, some, ◌∷◌, str_eq, if◌then◌else◌,
}
use realtime_notification_pl.Json.{Json, str, obj, Fields, get}
use realtime_notification_pl.Postgres.{Uuid}
use realtime_notification_pl.Platform.{Platform}
use realtime_notification_pl.World.{
  Action, Result, ok, err, validation, attribute, value, pure, raise, gets, count, ◌>>=◌, ◌>>◌,
}
use realtime_notification_pl.Core.RateLimiter.{RateLimiter, allow}
use realtime_notification_pl.Presence.Manager.{PresenceManager, mark_online, mark_away}
use realtime_notification_pl.Db.Repository.{get_session, mark_read}
use realtime_notification_pl.Websocket.Heartbeat.{HeartbeatHandler, handle}
use realtime_notification_pl.Websocket.Messages.{rate_limited_message, error_message}

pub record MessageRouter : Type 0 where
  pub heartbeat_handler : HeartbeatHandler
  pub presence_manager : PresenceManager
  pub rate_limiter : RateLimiter

-- `raw_message.get("type", "unknown")`
abbrev pub type_of : Option Json → Json
type_of none = str "unknown"
type_of (some j) = j

-- `message_type == name`
abbrev pub is_type : Json → String → Bool
is_type (str s) name = str_eq s name
is_type _ name = false

-- the status of a PresenceUpdateMessage: true for online, false for away
abbrev pub status_field : Option Json → Option Bool
status_field (some (str s)) =
    if str_eq s "online" then some true else if str_eq s "away" then some false else none
status_field _ = none

module _ ⦃p : Platform⦄ where
  -- `str(message_type)`
  abbrev pub label : Json → String
  label (str s) = s
  label j = p.repr j

  abbrev pub parsed_user : Option Uuid → Action Uuid
  parsed_user none = raise value
  parsed_user (some u) = pure u

  abbrev pub count_receipt : Bool → Action Unit
  count_receipt true =
      count (λ m. record m { read_receipts_recorded_total = m.read_receipts_recorded_total + 1 })
  count_receipt false = pure tt

  -- `_mark_read` of app/main.py
  unfoldable pub on_read_receipt : Uuid → String → ℕ → Action Unit
  on_read_receipt notification_id user_id read_at = do
    get_session
    user ← parsed_user (p.uuid_parse user_id)
    marked ← mark_read notification_id user read_at
    count_receipt marked

  unfoldable pub on_heartbeat : MessageRouter → String → Action (Option Json)
  on_heartbeat self user_id = do handle self.heartbeat_handler user_id; pure none

  abbrev pub update_presence : MessageRouter → String → Option Bool → Action (Option Json)
  update_presence self user_id none = raise validation
  update_presence self user_id (some true) = do mark_online self.presence_manager user_id; pure none
  update_presence self user_id (some false) = do mark_away self.presence_manager user_id; pure none

  unfoldable pub on_presence_update : MessageRouter → String → Fields → Action (Option Json)
  on_presence_update self user_id raw =
      update_presence self user_id (status_field (get "status" raw))

  abbrev pub receipt_field : Option Json → Option Uuid
  receipt_field none = none
  receipt_field (some j) = p.uuid_field j

  abbrev pub acknowledge : String → Option Uuid → Action (Option Json)
  acknowledge user_id none = raise validation
  acknowledge user_id (some n) = do
    now ← gets (λ w. w.now)
    on_read_receipt n user_id now
    pure none

  unfoldable pub on_receipt : String → Fields → Action (Option Json)
  on_receipt user_id raw = acknowledge user_id (receipt_field (get "notification_id" raw))

  -- the `try` of `route`
  unfoldable pub dispatch : MessageRouter → String → Json → Fields → Action (Option Json)
  dispatch self user_id message_type raw =
      if is_type message_type "heartbeat"
      then on_heartbeat self user_id
      else if is_type message_type "presence_update"
      then on_presence_update self user_id raw
      else if is_type message_type "read_receipt"
      then on_receipt user_id raw
      else pure (some (error_message (Text.◌++◌ "Unknown message type: " (label message_type))))

  -- `except ValidationError`
  abbrev pub rescued : Result (Option Json) → Result (Option Json)
  rescued (err validation) = ok (some (error_message "Malformed message payload"))
  rescued r = r

  abbrev pub rescue : Action (Option Json) → Action (Option Json)
  rescue m w = let (r, w') = m w in (rescued r, w')

  unfoldable pub limited : Action (Option Json)
  limited = do
    count (λ m. record m { rate_limited_total = m.rate_limited_total + 1 })
    pure (some rate_limited_message)

  unfoldable pub route_dict : MessageRouter → String → String → Fields → Action (Option Json)
  unfolding dispatch limited
  route_dict self user_id connection_id raw = do
    let message_type = type_of (get "type" raw)
    count (λ m. record m {
      ws_messages_received_total = label message_type ∷ m.ws_messages_received_total;
    })
    allowed ← allow self.rate_limiter connection_id
    if allowed then rescue (dispatch self user_id message_type raw) else limited

  -- a frame that is no dict has no `get`
  unfoldable pub route : MessageRouter → String → String → Json → Action (Option Json)
  unfolding route_dict
  route self user_id connection_id (obj raw) = route_dict self user_id connection_id raw
  route self user_id connection_id _ = raise attribute
