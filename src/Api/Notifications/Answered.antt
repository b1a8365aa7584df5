-- ===== src/Api/Notifications/Answered.antt =====
-- The handler of POST /notifications when the services answer: it returns, and what it leaves alone.
use realtime_notification_pl.Prelude.{
  ℕ, ◌<◌, String, Bool, true, false, ◌≡◌, refl, ◌∙◌, ◌+◌, Option-cases, Bool-cases, inl, inr, [],
}
use realtime_notification_pl.Postgres.{NewNotification, Notification}
use realtime_notification_pl.Redis.{plain}
use realtime_notification_pl.Platform.{Platform}
use realtime_notification_pl.Keys.{dedup_key, registry_key, liveness_key, rate_limit_key}
use realtime_notification_pl.Keys.Distinct.{keys}
use realtime_notification_pl.World.{World, Result, ok, calm, ◌>>=◌}
use realtime_notification_pl.Core.Idempotency.{has_seen, mark_seen}
use realtime_notification_pl.Presence.Store.{decode}
use realtime_notification_pl.Pubsub.InstanceRegistry.{lookup, is_alive, exists}
use realtime_notification_pl.Pubsub.Publisher.{publish_to_instance}
use realtime_notification_pl.Db.Repository.{create, mark_delivered_live}
use realtime_notification_pl.Api.Notifications.{
  Api, Response, duplicate, owning_instance, deliver_live, persist, unless_seen,
}

module _ ⦃p : Platform⦄ where
  -- the services still answer, and the windows of the limiters are as they were
  pub record Undisturbed (w w' : World) : Type 0 where
    pub answering : w'.schedule ≡ []
    pub windows :
        (d : ℕ) (id : String)
        → p.redis.peek w'.cache d (rate_limit_key id) ≡ p.redis.peek w.cache d (rate_limit_key id)

  abbrev pub Returns : World → Result Response × World → Type 0
  Returns w (r, w') = (a : Response) × (r ≡ ok a) × Undisturbed w w'

  deliver_live-answered :
      (body : NewNotification) (row : Notification) (w : World)
      → let (r, w') = deliver_live body row (calm w) in
        (live : Bool) × (r ≡ ok live) × Undisturbed w w'
  unfolding deliver_live owning_instance lookup is_alive publish_to_instance mark_delivered_live
      ◌>>=◌
  deliver_live-answered body row w =
      elim (Option-cases (p.redis.peek w.cache 0 (registry_key (p.uuid_text body.user_id)))) [
        | inl gone ↦ rw gone (false, refl, record { answering = refl; windows = λ d id. refl })
        | inr (v, named) ↦
            rw named
              (elim (Bool-cases (exists (p.redis.peek w.cache 0 (liveness_key (decode v))))) [
                | inl alive ↦
                    rw alive (true, refl, record { answering = refl; windows = λ d id. refl })
                | inr dead ↦
                    rw dead (false, refl, record { answering = refl; windows = λ d id. refl })
              ])
      ]

  -- after the mark, which is not in a limiter's window
  marked : Api → NewNotification → World → World
  marked self body w = record w {
    cache =
        p.redis.set_ex (dedup_key (p.uuid_text body.notification_id)) (plain "1")
          self.idempotency_guard.ttl_seconds w.cache;
    database = (p.postgres.insert body w.database).1;
    session = (p.postgres.insert body w.database).1;
    schedule = [];
  }

  marked-Undisturbed :
      (self : Api) (body : NewNotification) (w : World)
      → 0 < self.idempotency_guard.ttl_seconds
      → Undisturbed w (marked self body w)
  unfolding marked
  marked-Undisturbed self body w pos = record {
    answering = refl;
    windows = λ d id. simp (p.redis.peek-set_ex, pos, keys);
  }

  counted : World → World
  counted w = record w {
    metrics = record (w.metrics) {
      notifications_persisted_total = w.metrics.notifications_persisted_total + 1;
    };
  }

  -- A handler whose calls are all answered returns, and counts nothing in a limiter's window.
  pub unless_seen-answered :
      (self : Api) (body : NewNotification) (w : World)
      → 0 < self.idempotency_guard.ttl_seconds
      → Returns w (unless_seen self body (calm w))
  unfolding unless_seen persist has_seen mark_seen create marked counted ◌>>=◌
  unless_seen-answered self body w pos =
      let kept = marked-Undisturbed self body w pos in
      elim (Option-cases (p.redis.peek w.cache 0 (dedup_key (p.uuid_text body.notification_id)))) [
        | inr (v, seen) ↦ rw seen (
          duplicate body.notification_id,
          refl,
          record { answering = refl; windows = λ d id. refl },
        )
        | inl new ↦ rw new (elim (Option-cases (p.postgres.insert body w.database).0) [
          | inl old ↦ rw old (duplicate body.notification_id, refl, kept)
          | inr (row, fresh) ↦ rw fresh (
              let (live, sent, still) =
                deliver_live-answered body row (counted (marked self body w)) in
              rw sent (
                record {
                  notification_id = body.notification_id;
                  persisted = true;
                  delivered_live = live;
                },
                refl,
                record {
                  answering = still.answering;
                  windows = λ d id. still.windows d id ∙ kept.windows d id;
                },
              ))
        ])
      ]
