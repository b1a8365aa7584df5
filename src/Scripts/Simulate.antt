-- ===== src/Scripts/Simulate.antt =====
-- scripts/simulate_notifications.py: one client that posts a batch of notifications for one user, each
-- with a fresh id. The script prints an answer before it posts the next body, and an answer of 400 or
-- above ends it, as an exception of the handler does.
pub mod Limit
use realtime_notification_pl.Prelude.{ℕ, suc, String, Option, List, [], ◌∷◌}
use realtime_notification_pl.Json.{Fields, str, num, obj, done, field}
use realtime_notification_pl.Postgres.{Uuid}
use realtime_notification_pl.Platform.{Platform}
use realtime_notification_pl.World.{World, Result, ok, err, wait}
use realtime_notification_pl.Api.Notifications.{Api, Response}
use realtime_notification_pl.Schemas.Notifications.{post_notifications}

module _ ⦃p : Platform⦄ where
  abbrev pub index : ℕ → Fields
  index i = field "index" (num i) done

  -- the body of the i-th post
  abbrev pub payload : Uuid → String → String → ℕ → Fields
  payload notification_id user_id notification_type i =
      field "notification_id" (str (p.uuid_text notification_id)) (
        field "user_id" (str user_id)
          (field "type" (str notification_type) (field "payload" (obj (index i)) done)))

  -- the lines printed, how the script ends, and the world after it
  abbrev pub Run : Type 0
  Run = List Response × Result Unit × World

  -- `raise_for_status` and `print`
  abbrev pub on_response : Result Response × World → (World → Run) → Run
  on_response (ok r, w) rest = let (printed, end, later) = rest w in (r ∷ printed, end, later)
  on_response (err e, w) rest = ([], err e, w)

  module _ (self : Api) (client : Option String) (uuid4 : ℕ → Uuid)
      (user_id notification_type : String) where
    -- The loop from its i-th turn on. The length of the list is the number of turns left, and each
    -- entry the seconds that pass before the post.
    unfoldable pub send_notifications : ℕ → List ℕ → World → Run
    send_notifications i [] w = ([], ok tt, w)
    send_notifications i (gap ∷ gaps) w =
        on_response
          (post_notifications self client (payload (uuid4 i) user_id notification_type i)
            (wait gap w))
          (send_notifications (suc i) gaps)
