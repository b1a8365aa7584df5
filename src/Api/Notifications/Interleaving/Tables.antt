-- ===== src/Api/Notifications/Interleaving/Tables.antt =====
-- The calls of a handler, by what they store.
use realtime_notification_pl.Prelude.{
  ℕ, ◌+◌, ◌≤◌, String, ◌≡◌, refl, Option, none, some, arith, ◌==◌,
}
use realtime_notification_pl.Postgres.{Uuid, Notification, NewNotification}
use realtime_notification_pl.Postgres.Rows.{has_id-update}
use realtime_notification_pl.Platform.{Platform}
use realtime_notification_pl.World.{modify}
use realtime_notification_pl.World.Keeps.{Stored, Triple, Triple-pure, Triple-call, Triple-bind}
use realtime_notification_pl.World.Quiet.{
  Published, Untold, Published-Keeping, Untold-Keeping, Within, Within-pure, Within-modify,
  Within-call, Within-bind, Within-command,
}
use realtime_notification_pl.Core.Idempotency.{has_seen, mark_seen}
use realtime_notification_pl.Pubsub.InstanceRegistry.{lookup, is_alive}
use realtime_notification_pl.Db.Repository.{
  get_session, execute, commit, create, mark_delivered_live, set_delivered,
}
use realtime_notification_pl.Api.Notifications.{Api}
use realtime_notification_pl.Api.Notifications.Stages.{
  store, flag, count_persisted, record_delivery,
}
use realtime_notification_pl.Api.Notifications.Interleaving.Ledger.{present, weight, insert-present}

module _ ⦃p : Platform⦄ where
  open p use {postgres}

  pub has_seen-Untold : (m : Uuid) → Within Untold (has_seen m)
  unfolding has_seen
  has_seen-Untold m =
      Within-bind Untold Untold-Keeping _ _ (Within-command _)
        (λ v. Within-pure Untold Untold-Keeping _)

  pub count_persisted-Untold : (o : Option Notification) → Within Untold (count_persisted o)
  count_persisted-Untold none = Within-pure Untold Untold-Keeping _
  count_persisted-Untold (some row) = Within-modify Untold Untold-Keeping _ (λ w. (refl, refl))

  pub flag-Untold :
      (self : Api) (body : NewNotification) (o : Option Notification)
      → Within Untold (flag self body o)
  unfolding flag mark_seen
  flag-Untold self body o =
      Within-bind Untold Untold-Keeping _ _ (Within-command _) (λ _. count_persisted-Untold o)

  pub lookup-Untold : (u : String) → Within Untold (lookup u)
  unfolding lookup
  lookup-Untold u =
      Within-bind Untold Untold-Keeping _ _ (Within-command _)
        (λ v. Within-pure Untold Untold-Keeping _)

  pub is_alive-Untold : (owner : String) → Within Untold (is_alive owner)
  unfolding is_alive
  is_alive-Untold owner = Within-command _

  -- the statements publish nothing
  pub store-Published : (body : NewNotification) → Within Published (store body)
  unfolding store create
  store-Published body =
      Within-bind Published Published-Keeping _ _
        (Within-modify Published Published-Keeping _ (λ w. refl))
        (λ _.
          Within-bind Published Published-Keeping _ _
            (Within-call Published Published-Keeping _ (λ w. refl))
            (λ o.
              Within-bind Published Published-Keeping _ _
                (Within-call Published Published-Keeping _ (λ w. refl))
                (λ _. Within-pure Published Published-Keeping o)))

  pub record_delivery-Published : (row : Notification) → Within Published (record_delivery row)
  unfolding record_delivery mark_delivered_live
  record_delivery-Published row =
      Within-bind Published Published-Keeping _ _
        (Within-modify Published Published-Keeping _ (λ w. refl))
        (λ _.
          Within-bind Published Published-Keeping _ _
            (Within-bind Published Published-Keeping _ _
              (Within-call Published Published-Keeping _ (λ w. refl))
              (λ _. Within-call Published Published-Keeping _ (λ w. refl)))
            (λ _. Within-modify Published Published-Keeping _ (λ w. refl)))

  module _ (n : Uuid) (d : postgres.State) where
    -- `k` rows more than in `d`
    abbrev pub More : ℕ → postgres.State → Type 0
    More k db = k + present n (postgres.notifications d) ≤ present n (postgres.notifications db)

    abbrev pub Done : ℕ → Stored
    Done k s db ses = More k db

    abbrev Ready : ℕ → Stored
    Ready k s db ses = (db ≡ d) × More k ses

    abbrev pub Before : Stored
    Before s db ses = db ≡ d

    abbrev Begun : Stored
    Begun s db ses = (db ≡ d) × (ses ≡ d)

    unchanged : {db : postgres.State} → db ≡ d → More 0 db
    unchanged e = rw e (omega arith)

    begin : Triple (Done 0) Before (λ _. Begun) get_session
    unfolding modify
    begin = record { at = λ w h. (h, h) }

    -- a statement that adds `k a` rows with answer `a`, then its commit
    module _ {A : Type 0} (k : A → ℕ) (stmt : postgres.State → A × postgres.State)
        (adds : More (k (stmt d).0) (stmt d).1) where
      executed : Triple (Done 0) Begun (λ a. Ready (k a)) (execute stmt)
      executed =
          Triple-call (Done 0) Begun (λ a. Ready (k a)) _ (λ w h. (h.0, rw (h.1) adds))
            (λ w h. unchanged h.0) (λ a w h. unchanged h.0)

    committed : (k : ℕ) → Triple (Done 0) (Ready k) (λ _. Done k) commit
    committed k =
        Triple-call (Done 0) (Ready k) (λ _. Done k) _ (λ w h. h.1) (λ w h. unchanged h.0)
          (λ a w h. omega (arith, h))

    pub stored_lem :
        (body : NewNotification) → Triple (Done 0) Before (λ o. Done (weight n o)) (store body)
    unfolding store create
    stored_lem body =
        Triple-bind (Done 0) Before (λ _. Begun) (λ o. Done (weight n o)) _ _ begin
          (λ _.
            Triple-bind (Done 0) Begun (λ o. Ready (weight n o)) (λ o. Done (weight n o)) _ _
              (executed (weight n) (postgres.insert body) (insert-present postgres n body d))
              (λ o.
                Triple-bind (Done 0) (Ready (weight n o)) (λ _. Done (weight n o))
                  (λ o'. Done (weight n o')) _ _ (committed (weight n o))
                  (λ _. Triple-pure (Done 0) (Done (weight n o)) _ o (λ w h. h))))

    pub delivered_lem :
        (row : Notification) → Triple (Done 0) Before (λ _. Done 0) (record_delivery row)
    unfolding record_delivery mark_delivered_live modify
    delivered_lem row =
        Triple-bind (Done 0) Before (λ _. Begun) (λ _. Done 0) _ _ begin
          (λ _.
            Triple-bind (Done 0) Begun (λ _. Done 0) (λ _. Done 0) _ _
              (Triple-bind (Done 0) Begun (λ _. Ready 0) (λ _. Done 0) _ _
                (executed (λ _. 0) _
                  (rw
                    (has_id-update postgres n (λ r. r.notification_id == row.notification_id)
                      set_delivered d (λ r. (refl, refl)))
                    (omega arith)))
                (λ _. committed 0))
              (λ _. record { at = λ w h. h }))
