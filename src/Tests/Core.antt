-- ===== src/Tests/Core.antt =====
-- The limiter, the guard, the presence of a user and the registry.
use realtime_notification_pl.Prelude.{◌≡◌, refl, none, some, [], ◌∷◌, arith}
use realtime_notification_pl.Platform.Sample.{sample}
use realtime_notification_pl.World.{ok, calm}
use realtime_notification_pl.Core.RateLimiter.Window.{admitted, admitted-eq-min}
use realtime_notification_pl.Presence.Manager.{PresenceStatus, get}
use realtime_notification_pl.Presence.Machine.{
  Machine, gone, go_away, beat, pass, Shows, play, play-get,
}
use realtime_notification_pl.Tests.Worlds.{quiet, limiter, manager}

admitted-eq-min_example : admitted limiter "c1" (0 ∷ 3 ∷ 3 ∷ []) quiet ≡ 2
admitted-eq-min_example =
    admitted-eq-min limiter "c1" 0 (3 ∷ 3 ∷ []) quiet refl (omega arith) (omega arith)

abbrev unseen : Machine
unseen = record { liveness = gone; last_seen = none; now = 100 }

Shows-quiet : Shows "||." unseen quiet
Shows-quiet = record { live = tt; key = λ d. refl; seen = λ d. refl; clock = refl }

play-get_example :
    (get "||." (calm (play manager "||." (go_away ∷ pass 20 ∷ beat ∷ pass 29 ∷ []) quiet))).0
    ≡ ok (record { user_id = "||."; status = PresenceStatus.away; last_seen = some 120 })
play-get_example =
    play-get manager "||." (go_away ∷ pass 20 ∷ beat ∷ pass 29 ∷ []) unseen quiet (omega arith)
      Shows-quiet
