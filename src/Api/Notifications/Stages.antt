-- ===== src/Api/Notifications/Stages.antt =====
-- app/api/routes/notifications.py, one awaited call at a time: where a handler stands between two
-- calls, and what its next call does. Between them other handlers run, on this instance or on
-- another. A statement of PostgreSQL and its commit are one step, since a conflicting INSERT waits
-- for the commit of the first.
use realtime_notification_pl.Prelude.{
  ℕ, zero, suc, ◌+◌, Bool, String, true, false, Option, none, some, ◌≡◌, refl, inl, inr, [],
  Option-cases, Bool-cases,
}
use realtime_notification_pl.Postgres.{Notification, NewNotification}
use realtime_notification_pl.Platform.{Platform}
use realtime_notification_pl.Redis.{plain}
use realtime_notification_pl.Keys.{registry_key, liveness_key, dedup_key}
use realtime_notification_pl.World.{
  World, Result, ok, err, Error, Action, calm, gets, pure, count, ◌>>=◌, ◌>>◌,
}
use realtime_notification_pl.Core.Idempotency.{has_seen, mark_seen}
use realtime_notification_pl.Presence.Store.{decode}
use realtime_notification_pl.Pubsub.InstanceRegistry.{lookup, is_alive, exists}
use realtime_notification_pl.Pubsub.Publisher.{publish_to_instance}
use realtime_notification_pl.Db.Repository.{get_session, create, mark_delivered_live}
use realtime_notification_pl.Api.Notifications.{
  Api, Response, duplicate, live_message, owning_instance, deliver_live, persist, unless_seen,
}

pub data Stage : Type 0 where
  arrived unseen : Stage
  -- after `create`, with its answer
  stored : Option Notification → Stage
  -- a new row: before the lookup of the owner, before the test of its liveness, before the publish,
  -- and after it
  placing : Notification → Stage
  checking sending : Notification → String → Stage
  sent : Notification → Stage
  answered : Response → Stage
  failed : Error → Stage

abbrev pub persisted : NewNotification → Bool → Response
persisted body live = record {
  notification_id = body.notification_id;
  persisted = true;
  delivered_live = live;
}

-- the stage after an answer of the call
abbrev pub after_seen : NewNotification → Bool → Stage
after_seen body true = answered (duplicate body.notification_id)
after_seen body false = unseen

abbrev pub after_flag : NewNotification → Option Notification → Stage
after_flag body none = answered (duplicate body.notification_id)
after_flag body (some row) = placing row

abbrev pub after_lookup : NewNotification → Notification → Option String → Stage
after_lookup body row none = answered (persisted body false)
after_lookup body row (some owner) = checking row owner

abbrev pub after_alive : NewNotification → Notification → String → Bool → Stage
after_alive body row owner true = sending row owner
after_alive body row owner false = answered (persisted body false)

module _ ⦃p : Platform⦄ where
  -- an exception ends the handler
  abbrev pub next : {A : Type 0} → (A → Stage) → Result A × World → Stage × World
  next f (ok a, w) = (f a, w)
  next f (err e, w) = (failed e, w)

  unfoldable pub store : NewNotification → Action (Option Notification)
  store body = do get_session; create body

  abbrev pub count_persisted : Option Notification → Action Unit
  count_persisted none = pure tt
  count_persisted (some row) =
      count (λ m. record m { notifications_persisted_total = m.notifications_persisted_total + 1 })

  unfoldable pub flag : Api → NewNotification → Option Notification → Action Unit
  flag self body o = do mark_seen self.idempotency_guard body.notification_id; count_persisted o

  unfoldable pub send : NewNotification → Notification → String → Action Unit
  send body row owner = do
    now ← gets (λ w. w.now)
    publish_to_instance owner (live_message row body.user_id now)

  -- the commit of `create` has ended a transaction, and the next one begins with what is committed
  unfoldable pub record_delivery : Notification → Action Unit
  record_delivery row = do
    get_session
    mark_delivered_live row.notification_id
    count (λ m. record m {
      notifications_delivered_live_total = m.notifications_delivered_live_total + 1;
    })

  unfoldable pub advance : Api → NewNotification → Stage → World → Stage × World
  advance self body arrived w = next (after_seen body) (has_seen body.notification_id w)
  advance self body unseen w = next stored (store body w)
  advance self body (stored o) w = next (λ _. after_flag body o) (flag self body o w)
  advance self body (placing row) w =
      next (after_lookup body row) (lookup (p.uuid_text body.user_id) w)
  advance self body (checking row owner) w = next (after_alive body row owner) (is_alive owner w)
  advance self body (sending row owner) w = next (λ _. sent row) (send body row owner w)
  advance self body (sent row) w =
      next (λ _. answered (persisted body true)) (record_delivery row w)
  advance self body (answered r) w = (answered r, w)
  advance self body (failed e) w = (failed e, w)

  -- a handler that nothing overtakes
  abbrev advance_all : ℕ → Api → NewNotification → Stage × World → Stage × World
  advance_all zero self body (st, w) = (st, w)
  advance_all (suc n) self body (st, w) = advance_all n self body (advance self body st w)

  abbrev stage_of : Result Response → Stage
  stage_of (ok r) = answered r
  stage_of (err e) = failed e

  abbrev in_session : World → World
  in_session w = record w { session = w.database; schedule = [] }

  -- from the lookup of the owner on
  advance_all-deliver_live :
      (self : Api) (body : NewNotification) (row : Notification) (w : World)
      → let (r, w') =
          (do live ← deliver_live body row; pure (persisted body live)) (in_session w) in
        advance_all 4 self body (placing row, in_session w) ≡ (stage_of r, w')
  unfolding advance deliver_live owning_instance send record_delivery lookup is_alive
      publish_to_instance mark_delivered_live ◌>>=◌
  advance_all-deliver_live self body row w =
      elim (Option-cases (p.redis.peek w.cache 0 (registry_key (p.uuid_text body.user_id)))) [
        | inl gone ↦ rw gone refl
        | inr (v, named) ↦
            rw named
              (elim (Bool-cases (exists (p.redis.peek w.cache 0 (liveness_key (decode v))))) [
                | inl alive ↦ rw alive refl
                | inr dead ↦ rw dead refl
              ])
      ]

  -- With every call answered, the seven calls of a handler that runs alone are the handler.
  advance_all-unless_seen :
      (self : Api) (body : NewNotification) (w : World)
      → let (r, w') = unless_seen self body (calm w) in
        advance_all 7 self body (arrived, calm w) ≡ (stage_of r, w')
  unfolding advance unless_seen persist deliver_live owning_instance has_seen mark_seen create store
      flag send record_delivery lookup is_alive publish_to_instance mark_delivered_live ◌>>=◌
  advance_all-unless_seen self body w =
      elim (Option-cases (p.redis.peek w.cache 0 (dedup_key (p.uuid_text body.notification_id)))) [
        | inr (v, seen) ↦ rw seen refl
        | inl new ↦ rw new (elim (Option-cases (p.postgres.insert body w.database).0) [
          | inl old ↦ rw old refl
          | inr (row, fresh) ↦ rw fresh (
              advance_all-deliver_live self body row (record w {
                cache =
                    p.redis.set_ex (dedup_key (p.uuid_text body.notification_id)) (plain "1")
                      self.idempotency_guard.ttl_seconds w.cache;
                database = (p.postgres.insert body w.database).1;
                metrics = record (w.metrics) {
                  notifications_persisted_total = w.metrics.notifications_persisted_total + 1;
                };
              }))
        ])
      ]
