-- ===== src/Schemas/Notifications.antt =====
-- app/schemas/notifications.py: the body of POST /notifications and its validation.
pub mod Types
pub mod Bodies
pub mod Stored
use Prim.Native.String as Text
use realtime_notification_pl.Prelude.{
  ℕ, ◌*◌, String, Bool, false, Option, none, some, List, [], ◌∷◌, leb, if◌then◌else◌,
}
use realtime_notification_pl.Prelude.Lists.{length}
use realtime_notification_pl.Json.{Json, Fields, str, obj, done, get}
use realtime_notification_pl.Regex.{Regex, Spans, class, both, star, plus, codes}
use realtime_notification_pl.Postgres.{NewNotification}
use realtime_notification_pl.Platform.{Platform}
use realtime_notification_pl.World.{Action, http, raise}
use realtime_notification_pl.Api.Notifications.{Api, Response, create_notification}

-- `[a-z]` and `[a-z0-9_]`
abbrev pub lower : Spans
lower = (97, 122) ∷ []

abbrev pub word : Spans
word = (97, 122) ∷ (48, 57) ∷ (95, 95) ∷ []

abbrev pub dot : Spans
dot = (46, 46) ∷ []

abbrev pub segment : Regex
segment = both (class lower) (star (class word))

abbrev pub notification_type_pattern : Regex
notification_type_pattern = both segment (plus (both (class dot) segment))

abbrev pub max_payload_bytes : ℕ
max_payload_bytes = 32 * 1024

-- `min_length=1, max_length=50`
abbrev pub fits : String → Bool
fits s = let n = length (codes s) in if leb 1 n then leb n 50 else false

infixl 1 ◌>>=◌
abbrev pub ◌>>=◌ {ℓ κ} : {A : Type ℓ} {B : Type κ} → Option A → (A → Option B) → Option B
none >>= f = none
some a >>= f = f a

module _ ⦃p : Platform⦄ where
  unfoldable pub type_field : Json → Option String
  type_field (str s) =
      if fits s then if p.matches notification_type_pattern s then some s else none else none
  type_field _ = none

  -- payload_within_size_limit
  abbrev pub payload_within_size_limit : Fields → Option Fields
  payload_within_size_limit payload =
      if leb (p.encoded_bytes (p.dumps (obj payload))) max_payload_bytes then some payload else none

  -- a body without a payload has the empty one, which is not checked
  unfoldable pub payload_field : Option Json → Option Fields
  payload_field none = some done
  payload_field (some (obj payload)) = payload_within_size_limit payload
  payload_field (some _) = none

  unfoldable pub model_validate : Fields → Option NewNotification
  unfolding type_field payload_field
  model_validate body = do
    i ← get "notification_id" body
    notification_id ← p.uuid_field i
    u ← get "user_id" body
    user_id ← p.uuid_field u
    t ← get "type" body
    type ← type_field t
    payload ← payload_field (get "payload" body)
    some (record {
      notification_id = notification_id;
      user_id = user_id;
      type = type;
      payload = payload;
    })

  -- the route on a request's body: a body that is not valid does not reach the handler
  -- (FastAPI's account of the errors is left out)
  abbrev pub on_valid : Api → Option String → Option NewNotification → Action Response
  on_valid self client (some body) = create_notification self client body
  on_valid self client none = raise (http 422 "validation error")

  unfoldable pub post_notifications : Api → Option String → Fields → Action Response
  unfolding model_validate
  post_notifications self client body = on_valid self client (model_validate body)
