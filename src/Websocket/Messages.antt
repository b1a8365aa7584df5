-- ===== src/Websocket/Messages.antt =====
-- app/schemas/ws_messages.py: the frames of the protocol, as the dicts that they are dumped to.
use realtime_notification_pl.Prelude.{String, List, [], ◌∷◌}
use realtime_notification_pl.Json.{Json, str, arr, obj, Items, nil, cons, done, field}
use realtime_notification_pl.Postgres.{Uuid, Notification}
use realtime_notification_pl.Platform.{Platform}

abbrev pub rate_limited_message : Json
rate_limited_message = obj (
    field "type" (str "rate_limited")
      (field "detail" (str "Message rate limit exceeded, message dropped") done))

abbrev pub error_message : String → Json
error_message detail = obj (field "type" (str "error") (field "detail" (str detail) done))

-- what a client sends: HeartbeatMessage and, below, ReadReceiptMessage
abbrev pub heartbeat_message : Json
heartbeat_message = obj (field "type" (str "heartbeat") done)

module _ ⦃p : Platform⦄ where
  abbrev pub read_receipt_message : Uuid → Json
  read_receipt_message notification_id = obj (
      field "type" (str "read_receipt")
        (field "notification_id" (str (p.uuid_text notification_id)) done))

  -- NotificationEnvelope
  abbrev pub envelope : Notification → Json
  envelope row = obj (
      field "notification_id" (str (p.uuid_text row.notification_id)) (
        field "user_id" (str (p.uuid_text row.user_id)) (
          field "type" (str row.type) (
            field "payload" (obj row.payload)
              (field "created_at" (str (p.json_time row.created_at)) done)))))

  abbrev pub envelopes : List Notification → Items
  envelopes [] = nil
  envelopes (row ∷ rows) = cons (envelope row) (envelopes rows)

  abbrev pub backlog_message : List Notification → Json
  backlog_message rows =
      obj (field "type" (str "backlog") (field "notifications" (arr (envelopes rows)) done))

abbrev pub notification_message : Json → Json
notification_message notification =
    obj (field "type" (str "notification") (field "notification" notification done))
