-- ===== src/Api/Notifications/Interleaving/Once.antt =====
-- How often a notification is published, over all handlers.
use realtime_notification_pl.Prelude.{ℕ, ◌+◌, ◌≤◌, ◌≡◌, List, [], ◌∷◌, arith}
use realtime_notification_pl.Postgres.{Uuid}
use realtime_notification_pl.Platform.{Platform}
use realtime_notification_pl.World.{World}
use realtime_notification_pl.Api.Notifications.{Api}
use realtime_notification_pl.Api.Notifications.Interleaving.{
  Job, Moves, act, later, arrive, aside, Reaches, begin, also,
}
use realtime_notification_pl.Api.Notifications.Interleaving.Steps.{
  pending, notices, rows, Grows, advance-Grows,
}

abbrev pub pending_all : Uuid → List Job → ℕ
pending_all n [] = 0
pending_all n (job ∷ jobs) = pending n job.stage + pending_all n jobs

module _ ⦃p : Platform⦄ (self : Api) (n : Uuid) where
  Moves-Grows :
      {jobs jobs' : List Job} {w w' : World}
      → Moves self jobs w jobs' w'
      → Grows n (pending_all n jobs) (pending_all n jobs') w w'
  Moves-Grows (act body stage jobs w) = omega (arith, advance-Grows n self body stage w)
  Moves-Grows (later job move) = omega (arith, Moves-Grows move)
  Moves-Grows (arrive body w) = omega arith
  Moves-Grows (aside w w' told kept) = rw (told, kept n) (omega arith)

  Reaches-Grows :
      {jobs : List Job} {w : World} {jobs' : List Job} {w' : World}
      → Reaches self jobs w jobs' w'
      → Grows n (pending_all n jobs) (pending_all n jobs') w w'
  Reaches-Grows begin = omega arith
  Reaches-Grows (also reached move) = omega (arith, Reaches-Grows reached, Moves-Grows move)

  -- From a time when no handler is under way, however many requests arrive and however their
  -- handlers overtake one another, on any number of instances and with any calls failing: a
  -- notification that has not been published before is published at most once, only if a row with
  -- its id is committed, and not at all if such a row was there before.
  pub published_once :
      (jobs : List Job) (w w' : World)
      → notices n w ≡ 0
      → Reaches self [] w jobs w'
      → notices n w' + rows n w ≤ rows n w'
  published_once jobs w w' none_yet reached = omega (arith, Reaches-Grows reached)
