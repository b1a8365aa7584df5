-- ===== src/Tests/Bodies.antt =====
-- Bodies of POST /notifications.
use realtime_notification_pl.Prelude.{String, ◌≤◌, ◌≡◌, ◌↔◌, refl, none, some}
use realtime_notification_pl.Prelude.Lists.{length}
use realtime_notification_pl.Json.{Fields, str, field, done}
use realtime_notification_pl.Regex.{codes}
use realtime_notification_pl.Regex.Matcher.{engine}
use realtime_notification_pl.Platform.Sample.{sample}
use realtime_notification_pl.Schemas.Notifications.{type_field, model_validate, post_notifications}
use realtime_notification_pl.Schemas.Notifications.Types.{IsDotted, type_field_iff}
use realtime_notification_pl.Schemas.Notifications.Bodies.{IsValid, model_validate-IsValid}
use realtime_notification_pl.Tests.Worlds.{quiet, body, api}
use realtime_notification_pl.World.Keeps.{In}
use realtime_notification_pl.Schemas.Notifications.Stored.{AreTyped, post_notifications-AreTyped}

type_field_iff_example : (type_field (str "message.received") ≡ some "message.received") ↔ (
    (◌≡◌ {A = String} "message.received" "message.received")
    × IsDotted (codes "message.received")
    × (length (codes "message.received") ≤ 50))
type_field_iff_example = type_field_iff "message.received" "message.received"

abbrev request : Fields
request =
    field "notification_id" (str "|||||||||.")
      (field "user_id" (str "||.") (field "type" (str "message.received") done))

accepted_request : model_validate request ≡ some body
unfolding model_validate engine
accepted_request = refl

model_validate-IsValid_example : IsValid request body
model_validate-IsValid_example = model_validate-IsValid request body accepted_request

quiet-AreTyped : In AreTyped quiet
quiet-AreTyped = record { committed = tt; seen = tt }

post_notifications-AreTyped_example : In AreTyped (post_notifications api none request quiet).1
post_notifications-AreTyped_example =
    post_notifications-AreTyped api none request quiet quiet-AreTyped
