-- ===== src/Api/Notifications/Durable.antt =====
-- What a caller of POST /notifications may rely on when it is told that a notification was stored.
use mathlib.Core.List.{mem-append_right}
use realtime_notification_pl.Prelude.{
  String, ◌≡◌, refl, Bool, true, false, Option, none, some, inl, inr, Bool-cases, if◌then◌else◌,
}
use mathlib.Core.List.{mem-cons_self}
use realtime_notification_pl.Json.{Json}
use realtime_notification_pl.Postgres.{Uuid, Notification, NewNotification, has_id}
use realtime_notification_pl.Platform.{Platform}
use realtime_notification_pl.World.{World, Result, ok, err, Metrics, count, command, pure}
use realtime_notification_pl.World.Keeps.{
  Stored, In, Triple, Keeps, Triple-pure, Triple-raise, Triple-call, Triple-bind, Triple-weaken,
  Keeps-modify, Keeps-call, Keeps-bind, Anything, any-Keeps, Outcome, keeps_rules,
}
use realtime_notification_pl.Core.Idempotency.{IdempotencyGuard, has_seen, mark_seen}
use realtime_notification_pl.Pubsub.InstanceRegistry.{lookup, is_alive}
use realtime_notification_pl.Pubsub.Publisher.{publish_to_instance}
use realtime_notification_pl.Db.Repository.{
  get_session, commit, create, set_delivered, mark_delivered_live,
}
use realtime_notification_pl.Api.Notifications.Carried.{
  IsStoredIn, new_row-Carries, delivered-IsStoredIn,
}
use realtime_notification_pl.Api.Notifications.{
  Api, Response, duplicate, if_alive, publish_to, deliver_live, on_row, persist, unless_seen,
  when_allowed, create_notification,
}

module _ ⦃p : Platform⦄ where
  module _ (body : NewNotification) where
    -- committed, and seen by the session
    record IsStored (s : p.redis.State) (db ses : p.postgres.State) : Type 0 where
      committed : IsStoredIn body (p.postgres.notifications db)
      seen : IsStoredIn body (p.postgres.notifications ses)

    command-Keeps :
        {A : Type 0} (f : p.redis.State → A × p.redis.State) → Keeps IsStored (command f)
    unfolding command
    command-Keeps f =
        Keeps-call IsStored _ (λ w h. record { committed = h.committed; seen = h.seen })

    commit-Keeps : Keeps IsStored commit
    commit-Keeps = Keeps-call IsStored _ (λ w h. record { committed = h.seen; seen = h.seen })

    mark_delivered-Keeps : (n : Uuid) → Keeps IsStored (mark_delivered_live n)
    unfolding mark_delivered_live
    mark_delivered-Keeps n =
        Keeps-bind IsStored _ _
          (Keeps-call IsStored _ (λ w h. record {
            committed = h.committed;
            seen =
                rw (p.postgres.update_rows _ set_delivered w.session (λ r. (refl, refl))).1
                  (delivered-IsStoredIn body _ _ h.seen);
          }))
          (λ _. commit-Keeps)

    publish-Keeps :
        (owner : String) (message : Json) → Keeps IsStored (publish_to_instance owner message)
    unfolding publish_to_instance
    publish-Keeps owner message =
        Keeps-call IsStored _ (λ w h. record { committed = h.committed; seen = h.seen })

    count-Keeps : (f : Metrics → Metrics) → Keeps IsStored (count f)
    count-Keeps f =
        Keeps-modify IsStored _ (λ w h. record { committed = h.committed; seen = h.seen })

    ruleset stored_rules =
        (keeps_rules, command-Keeps, mark_delivered-Keeps, publish-Keeps, count-Keeps)

    if_alive-Keeps : (o : Option String) → Keeps IsStored (if_alive o)
    unfolding is_alive
    if_alive-Keeps none = search stored_rules
    if_alive-Keeps (some owner) = search stored_rules

    publish_to-Keeps :
        (row : Notification) (o : Option String) → Keeps IsStored (publish_to body row o)
    publish_to-Keeps row none = search stored_rules
    publish_to-Keeps row (some owner) = search stored_rules depth 9

    on_row-Keeps : (row : Notification) → Keeps IsStored (on_row body (some row))
    unfolding deliver_live lookup
    on_row-Keeps row = search (stored_rules, if_alive-Keeps, publish_to-Keeps) depth 9

    -- before the commit, by the answer of the INSERT
    abbrev Seen : Option Notification → Stored
    Seen none s db ses = Unit
    Seen (some row) s db ses = IsStoredIn body (p.postgres.notifications ses)

    -- and after it
    abbrev Told : Option Notification → Stored
    Told none s db ses = Unit
    Told (some row) s db ses = IsStored s db ses

    -- what the answer to the caller says
    abbrev Promised : Response → Stored
    Promised r s db ses = r.persisted ≡ true → IsStored s db ses

    insert-Seen :
        (w : World)
        → In
            (Seen (p.postgres.insert body w.session).0)
            (record w { session = (p.postgres.insert body w.session).1 })
    insert-Seen w =
        elim (Bool-cases (has_id body.notification_id (p.postgres.notifications w.session))) [
          | inl old ↦ rw (p.postgres.insert_conflict body w.session old).0 tt
          | inr new ↦
              let (some_row, rows) = p.postgres.insert_fresh body w.session new in
              rw (some_row, rows)
                (
                  p.postgres.new_row body w.session,
                  mem-append_right (p.postgres.notifications w.session) mem-cons_self,
                  new_row-Carries body w.session,
                )
        ]

    commit-Told : (o : Option Notification) → Triple Anything (Seen o) (λ _. Told o) commit
    commit-Told none =
        Triple-call Anything (Seen none) (λ _. Told none) _ (λ w h. tt) (λ w h. tt) (λ a w h. tt)
    commit-Told (some row) =
        Triple-call Anything (Seen (some row)) (λ _. Told (some row)) _
          (λ w h. record { committed = h; seen = h }) (λ w h. tt) (λ a w h. tt)

    create-Told : Triple Anything Anything Told (create body)
    unfolding create
    create-Told =
        Triple-bind Anything Anything Seen Told _ _
          (Triple-call Anything Anything Seen _ (λ w h. insert-Seen w) (λ w h. tt) (λ a w h. tt))
          (λ o.
            Triple-bind Anything (Seen o) (λ _. Told o) Told _ _ (commit-Told o)
              (λ _. Triple-pure Anything (Told o) Told o (λ w h. h)))

    mark_seen-Told :
        (self : IdempotencyGuard) (o : Option Notification)
        → Triple Anything (Told o) (λ _. Told o) (mark_seen self body.notification_id)
    unfolding mark_seen
    mark_seen-Told self none = Triple-weaken _ _ _ _ _ _ (λ w h. tt) (λ a w h. tt) (any-Keeps _)
    mark_seen-Told self (some row) =
        Triple-weaken IsStored Anything IsStored (λ _. IsStored) _ _ (λ w h. tt) (λ a w h. h)
          (command-Keeps _)

    on_row-Promised : (o : Option Notification) → Triple Anything (Told o) Promised (on_row body o)
    on_row-Promised none = Triple-pure Anything (Told none) Promised _ (λ w h e. absurd (cc e))
    on_row-Promised (some row) =
        Triple-weaken IsStored Anything IsStored (λ _. IsStored) Promised _ (λ w h. tt)
          (λ a w h e. h) (on_row-Keeps row)

    persist-Promised : (self : Api) → Triple Anything Anything Promised (persist self body)
    unfolding persist
    persist-Promised self =
        Triple-bind Anything Anything (λ _. Anything) Promised _ _ (any-Keeps get_session)
          (λ _. Triple-bind Anything Anything Told Promised _ _ create-Told (λ o.
            Triple-bind Anything (Told o) (λ _. Told o) Promised _ _
              (mark_seen-Told self.idempotency_guard o) (λ _. on_row-Promised o)))

    seen-Promised :
        (self : Api) (seen : Bool)
        → Triple Anything Anything Promised
            (if seen then pure (duplicate body.notification_id) else persist self body)
    seen-Promised self true = Triple-pure Anything Anything Promised _ (λ w h e. absurd (cc e))
    seen-Promised self false = persist-Promised self

    allowed-Promised :
        (self : Api) (allowed : Bool)
        → Triple Anything Anything Promised (when_allowed self body allowed)
    unfolding unless_seen
    allowed-Promised self true =
        Triple-bind Anything Anything (λ _. Anything) Promised _ _
          (any-Keeps (has_seen body.notification_id)) (λ b. seen-Promised self b)
    allowed-Promised self false = Triple-raise Anything Anything Promised _ (λ w h. tt)

    create_notification-Promised :
        (self : Api) (client : Option String)
        → Triple Anything Anything Promised (create_notification self client body)
    unfolding create_notification
    create_notification-Promised self client =
        Triple-bind Anything Anything (λ _. Anything) Promised _ _ (any-Keeps _)
          (λ b. allowed-Promised self b)

    returned :
        (r : Result Response) (w : World) (a : Response)
        → Outcome Anything Promised r w
        → r ≡ ok a
        → a.persisted ≡ true
        → IsStoredIn body (p.postgres.notifications w.database)
    returned (ok b) w a h e told = (h (cc (e, told))).committed
    returned (err x) w a h e told = absurd (cc e)

  -- A caller that is told that a notification was persisted is told the truth, whatever calls
  -- failed on the way: a committed row has what was sent, and is unread.
  pub persisted-IsStoredIn :
      (self : Api) (client : Option String) (body : NewNotification) (r : Response) (w : World)
      → (create_notification self client body w).0 ≡ ok r
      → r.persisted ≡ true
      → IsStoredIn body
          (p.postgres.notifications (create_notification self client body w).1.database)
  persisted-IsStoredIn self client body r w =
      returned body _ _ r ((create_notification-Promised body self client).at w tt)
