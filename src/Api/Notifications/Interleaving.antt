-- ===== src/Api/Notifications/Interleaving.antt =====
-- Handlers of POST /notifications that overtake one another, over shared services.
pub mod Ledger
pub mod Tables
pub mod Steps
pub mod Once
use realtime_notification_pl.Prelude.{ℕ, String, Bool, ◌≡◌, List, [], ◌∷◌}
use realtime_notification_pl.Postgres.{Uuid, NewNotification, has_id}
use realtime_notification_pl.Platform.{Platform}
use realtime_notification_pl.World.{World}
use realtime_notification_pl.Api.Notifications.{Api}
use realtime_notification_pl.Api.Notifications.Stages.{Stage, arrived, advance}

-- a handler: its request, and where it stands
pub record Job : Type 0 where
  pub body : NewNotification
  pub stage : Stage

module _ ⦃p : Platform⦄ where
  -- One step: some handler makes its next call, a request arrives (and has passed the limiter), or
  -- something happens that neither stores nor publishes a notification.
  pub data Moves (self : Api) : List Job → World → List Job → World → Type 0 where
    act :
        (body : NewNotification) (stage : Stage) (jobs : List Job) (w : World)
        → Moves self
            (record { body = body; stage = stage } ∷ jobs)
            w
            (record { body = body; stage = (advance self body stage w).0 } ∷ jobs)
            (advance self body stage w).1
    later :
        {jobs jobs' : List Job} {w w' : World} (job : Job)
        → Moves self jobs w jobs' w'
        → Moves self (job ∷ jobs) w (job ∷ jobs') w'
    arrive :
        (body : NewNotification) (w : World)
        → Moves self [] w (record { body = body; stage = arrived } ∷ []) w
    aside :
        (w w' : World)
        → w'.published ≡ w.published
        → ((n : Uuid)
            → has_id n (p.postgres.notifications w'.database)
              ≡ has_id n (p.postgres.notifications w.database))
        → Moves self [] w [] w'

  pub data Reaches (self : Api) (jobs : List Job) (w : World) : List Job → World → Type 0 where
    begin : Reaches self jobs w jobs w
    also :
        {jobs' jobs'' : List Job} {w' w'' : World}
        → Reaches self jobs w jobs' w'
        → Moves self jobs' w' jobs'' w''
        → Reaches self jobs w jobs'' w''
