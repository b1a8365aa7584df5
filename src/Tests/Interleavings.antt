-- ===== src/Tests/Interleavings.antt =====
-- Handlers of one notification that run at the same time.
use realtime_notification_pl.Prelude.{ℕ, zero, suc, ◌+◌, ◌≤◌, refl, List, [], ◌∷◌}
use realtime_notification_pl.Platform.Sample.{sample}
use realtime_notification_pl.World.{World}
use realtime_notification_pl.Api.Notifications.Stages.{Stage, arrived, advance}
use realtime_notification_pl.Api.Notifications.Interleaving.{
  Job, Reaches, begin, also, act, later, arrive,
}
use realtime_notification_pl.Api.Notifications.Interleaving.Steps.{notices, rows}
use realtime_notification_pl.Api.Notifications.Interleaving.Once.{published_once}
use realtime_notification_pl.Tests.Worlds.{connected, body, api}

-- two handlers of one body, and the world they share
abbrev Race : Type 0
Race = Stage × Stage × World

abbrev jobs : Race → List Job
jobs (a, b, w) = record { body = body; stage = a } ∷ record { body = body; stage = b } ∷ []

-- the first makes its next call, then the second
abbrev first : Race → Race
first (a, b, w) = ((advance api body a w).0, b, (advance api body a w).1)

abbrev second : Race → Race
second (a, b, w) = (a, (advance api body b w).0, (advance api body b w).1)

abbrev race : ℕ → Race
race zero = (arrived, arrived, connected)
race (suc n) = second (first (race n))

race-Reaches : (n : ℕ) → Reaches api [] connected (jobs (race n)) (race n).2
race-Reaches zero = also (also begin (arrive body connected)) (later _ (arrive body connected))
race-Reaches (suc n) =
    also (also (race-Reaches n) (act body (race n).0 _ (race n).2))
      (later _ (act body (race n).1 [] (first (race n)).2))

published_once_example : notices 9 (race 7).2 + rows 9 connected ≤ rows 9 (race 7).2
published_once_example =
    published_once api 9 (jobs (race 7)) connected (race 7).2 refl (race-Reaches 7)
