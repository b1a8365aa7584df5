-- ===== src/Pubsub/Publisher.antt =====
-- app/pubsub/publisher.py
use Prim.Native.String.{◌++◌}
use text.Mathlib.TextLemmas.{append_cancel_left}
use realtime_notification_pl.Prelude.{String, ◌≡◌, [], ◌∷◌}
use mathlib.Core.List as List
use realtime_notification_pl.Json.{Json}
use realtime_notification_pl.Platform.{Platform}
use realtime_notification_pl.World.{Action, call}

pub instance_channel : String → String
instance_channel instance_id = "channel:instance-" ++ instance_id

pub instance_channel-injective : (a b : String) → instance_channel a ≡ instance_channel b → a ≡ b
unfolding instance_channel
instance_channel-injective a b e = append_cancel_left "channel:instance-" a b e

module _ ⦃p : Platform⦄ where
  unfoldable pub publish_to_instance : String → Json → Action Unit
  publish_to_instance instance_id message = call (λ w. (
    tt,
    record w {
      published = List.◌++◌ w.published ((instance_channel instance_id, p.dumps message) ∷ []);
    },
  ))
