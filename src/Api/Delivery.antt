-- ===== src/Api/Delivery.antt =====
-- app/main.py: the handler that a gateway instance runs on its channel's messages.
pub mod EndToEnd
pub mod Promise
pub mod Live
pub mod Settled
use realtime_notification_pl.Prelude.{
  ℕ, String, Bool, true, false, Option, none, some, List, [], ◌∷◌, ◌++◌, if◌then◌else◌,
}
use realtime_notification_pl.Prelude.Int.{ℤ, sub_ℕ}
use realtime_notification_pl.Json.{Json, null, bool, num, str, arr, obj, Fields, get}
use realtime_notification_pl.Platform.{Platform}
use realtime_notification_pl.World.{Action, key_or_type, pure, raise, gets, count, ◌>>=◌}
use realtime_notification_pl.Websocket.ConnectionManager.{send_json}
use realtime_notification_pl.Websocket.Messages.{notification_message}

module _ ⦃p : Platform⦄ where
  abbrev pub observe : ℤ → Action Unit
  observe seconds =
      count
        (λ m. record m { delivery_latency_seconds = m.delivery_latency_seconds ++ seconds ∷ [] })

  -- `time.time() - published_at`; a Boolean is a number in Python
  abbrev pub latency : Option Json → Action Unit
  latency none = pure tt
  latency (some null) = pure tt
  latency (some (num t)) = do now ← gets (λ w. w.now); observe (sub_ℕ now t)
  latency (some (bool b)) = do now ← gets (λ w. w.now); observe (sub_ℕ now (if b then 1 else 0))
  latency (some _) = raise key_or_type

  abbrev pub required : Option Json → Action Json
  required none = raise key_or_type
  required (some j) = pure j

  -- a list or a dict is no key of a dict, and a value that is no text is no user's key
  abbrev pub send_to_user : Json → Json → Action Bool
  send_to_user (str user_id) message = send_json user_id message
  send_to_user (arr _) message = raise key_or_type
  send_to_user (obj _) message = raise key_or_type
  send_to_user _ message = pure false

  unfoldable pub deliver_dict : Fields → Action Unit
  deliver_dict payload = do
    user_id ← required (get "user_id" payload)
    notification ← required (get "notification" payload)
    delivered ← send_to_user user_id (notification_message notification)
    if delivered then latency (get "published_at" payload) else pure tt

  unfoldable pub deliver : Json → Action Unit
  unfolding deliver_dict
  deliver (obj payload) = deliver_dict payload
  deliver _ = raise key_or_type
