-- ===== src/Schemas/Notifications/Stored.antt =====
-- The rows that POST /notifications stores, from a request's body to the tables.
use realtime_notification_pl.Prelude.{
  ◌≤◌, String, ◌≡◌, refl, Bool, true, false, Option, none, some, List, [], ◌∷◌, ◌++◌, map, inl, inr,
  Bool-cases, if◌then◌else◌,
}
use realtime_notification_pl.Prelude.Lists.{length, All}
use realtime_notification_pl.Regex.{codes}
use realtime_notification_pl.Json.{Json, Fields}
use realtime_notification_pl.Postgres.{Uuid, Notification, NewNotification, has_id}
use realtime_notification_pl.Platform.{Platform}
use realtime_notification_pl.World.{World, Metrics, count, command}
use realtime_notification_pl.World.Keeps.{
  In, Keeps, Keeps-pure, Keeps-modify, Keeps-call, Keeps-bind, Keeps-In, keeps_rules,
}
use realtime_notification_pl.Core.RateLimiter.Frame.{allow-Keeps_always}
use realtime_notification_pl.Core.Idempotency.{has_seen, mark_seen}
use realtime_notification_pl.Pubsub.InstanceRegistry.{lookup, is_alive}
use realtime_notification_pl.Pubsub.Publisher.{publish_to_instance}
use realtime_notification_pl.Db.Repository.{
  get_session, commit, create, set_delivered, mark_delivered_live,
}
use realtime_notification_pl.Api.Notifications.{
  Api, caller_key, if_alive, publish_to, deliver_live, on_row, persist, unless_seen, when_allowed,
  create_notification,
}
use realtime_notification_pl.Schemas.Notifications.{model_validate, on_valid, post_notifications}
use realtime_notification_pl.Schemas.Notifications.Types.{IsDotted}
use realtime_notification_pl.Schemas.Notifications.Bodies.{model_validate-IsValid}

-- a type that fits the column and is a dotted name
abbrev pub HasType : String → Type 0
HasType t = IsDotted (codes t) × (length (codes t) ≤ 50)

All-append :
    (xs : List Notification) (r : Notification)
    → All (λ r. HasType r.type) xs
    → HasType r.type
    → All (λ r. HasType r.type) (xs ++ r ∷ [])
All-append [] r h k = (k, tt)
All-append (x ∷ xs) r h k = (h.0, All-append xs r h.1 k)

delivered-HasType :
    (q : Notification → Bool) (xs : List Notification)
    → All (λ r. HasType r.type) xs
    → All (λ r. HasType r.type) (map (λ r. if q r then set_delivered r else r) xs)
delivered-HasType q [] h = tt
delivered-HasType q (x ∷ xs) h = elim (Bool-cases (q x)) [
  | inl e ↦ rw e (h.0, delivered-HasType q xs h.1)
  | inr e ↦ rw e (h.0, delivered-HasType q xs h.1)
]

module _ ⦃p : Platform⦄ where
  -- every row that is committed, or that the session sees
  pub record AreTyped (s : p.redis.State) (db ses : p.postgres.State) : Type 0 where
    pub committed : All (λ r. HasType r.type) (p.postgres.notifications db)
    pub seen : All (λ r. HasType r.type) (p.postgres.notifications ses)

  insert-All :
      (new : NewNotification) (db : p.postgres.State)
      → HasType new.type
      → All (λ r. HasType r.type) (p.postgres.notifications db)
      → All (λ r. HasType r.type) (p.postgres.notifications (p.postgres.insert new db).1)
  insert-All new db t h =
      elim (Bool-cases (has_id new.notification_id (p.postgres.notifications db))) [
        | inl e ↦ rw (p.postgres.insert_conflict new db e).1 h
        | inr e ↦
            rw (p.postgres.insert_fresh new db e).1
              (All-append _ _ h (rw (p.postgres.new_row_values new db).2 t))
      ]

  command-Keeps : {A : Type 0} (f : p.redis.State → A × p.redis.State) → Keeps AreTyped (command f)
  unfolding command
  command-Keeps f = Keeps-call AreTyped _ (λ w h. record { committed = h.committed; seen = h.seen })

  commit-Keeps : Keeps AreTyped commit
  commit-Keeps = Keeps-call AreTyped _ (λ w h. record { committed = h.seen; seen = h.seen })

  get_session-Keeps : Keeps AreTyped get_session
  get_session-Keeps =
      Keeps-modify AreTyped _ (λ w h. record { committed = h.committed; seen = h.committed })

  mark_delivered-Keeps : (n : Uuid) → Keeps AreTyped (mark_delivered_live n)
  unfolding mark_delivered_live
  mark_delivered-Keeps n =
      Keeps-bind AreTyped _ _
        (Keeps-call AreTyped _ (λ w h. record {
          committed = h.committed;
          seen =
              rw (p.postgres.update_rows _ set_delivered w.session (λ r. (refl, refl))).1
                (delivered-HasType _ _ h.seen);
        }))
        (λ _. commit-Keeps)

  publish-Keeps :
      (owner : String) (message : Json) → Keeps AreTyped (publish_to_instance owner message)
  unfolding publish_to_instance
  publish-Keeps owner message =
      Keeps-call AreTyped _ (λ w h. record { committed = h.committed; seen = h.seen })

  count-Keeps : (f : Metrics → Metrics) → Keeps AreTyped (count f)
  count-Keeps f = Keeps-modify AreTyped _ (λ w h. record { committed = h.committed; seen = h.seen })

  if_alive-Keeps : (o : Option String) → Keeps AreTyped (if_alive o)
  unfolding is_alive
  if_alive-Keeps none = search keeps_rules
  if_alive-Keeps (some owner) = search keeps_rules

  ruleset typed_rules = (
    keeps_rules, command-Keeps, get_session-Keeps, if_alive-Keeps, mark_delivered-Keeps,
    publish-Keeps, count-Keeps,
  )

  publish_to-Keeps :
      (body : NewNotification) (row : Notification) (o : Option String)
      → Keeps AreTyped (publish_to body row o)
  publish_to-Keeps body row none = search typed_rules
  publish_to-Keeps body row (some owner) = search typed_rules depth 9

  deliver_live-Keeps :
      (body : NewNotification) (row : Notification) → Keeps AreTyped (deliver_live body row)
  unfolding deliver_live lookup
  deliver_live-Keeps body row = search (typed_rules, publish_to-Keeps) depth 7

  on_row-Keeps : (body : NewNotification) (o : Option Notification) → Keeps AreTyped (on_row body o)
  on_row-Keeps body none = search typed_rules
  on_row-Keeps body (some row) = search (typed_rules, deliver_live-Keeps) depth 7

  module _ (new : NewNotification) (typed : HasType new.type) where
    create-Keeps : Keeps AreTyped (create new)
    unfolding create
    create-Keeps =
        Keeps-bind AreTyped _ _
          (Keeps-call AreTyped _ (λ w h. record {
            committed = h.committed;
            seen = insert-All new w.session typed h.seen;
          }))
          (λ row. Keeps-bind AreTyped _ _ commit-Keeps (λ _. Keeps-pure AreTyped row))

    unless_seen-Keeps : (self : Api) → Keeps AreTyped (unless_seen self new)
    unfolding unless_seen persist has_seen mark_seen
    unless_seen-Keeps self = search (typed_rules, create-Keeps, on_row-Keeps) depth 9

    when_allowed-Keeps : (self : Api) (b : Bool) → Keeps AreTyped (when_allowed self new b)
    when_allowed-Keeps self true = unless_seen-Keeps self
    when_allowed-Keeps self false = search keeps_rules

    create_notification-Keeps :
        (self : Api) (client : Option String) → Keeps AreTyped (create_notification self client new)
    unfolding create_notification
    create_notification-Keeps self client =
        Keeps-bind AreTyped _ _
          (allow-Keeps_always AreTyped self.api_rate_limiter (caller_key client) command-Keeps)
          (λ b. when_allowed-Keeps self b)

  valid-Keeps :
      (self : Api) (client : Option String) (body : Fields) (o : Option NewNotification)
      → model_validate body ≡ o
      → Keeps AreTyped (on_valid self client o)
  valid-Keeps self client body none e = search keeps_rules
  valid-Keeps self client body (some new) e =
      let (_, typed, _) = model_validate-IsValid body new e in
      create_notification-Keeps new typed self client

  -- If the type of every row, committed or seen by the session, is a dotted name of 50 characters at
  -- most, it still is after a request with any body, whatever calls fail.
  pub post_notifications-AreTyped :
      (self : Api) (client : Option String) (body : Fields) (w : World)
      → In AreTyped w
      → In AreTyped (post_notifications self client body w).1
  unfolding post_notifications
  post_notifications-AreTyped self client body =
      Keeps-In AreTyped _ (valid-Keeps self client body (model_validate body) refl)
