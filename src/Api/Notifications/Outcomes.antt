-- ===== src/Api/Notifications/Outcomes.antt =====
-- What POST /notifications answers and does, when the services answer.
use realtime_notification_pl.Prelude.{
  ◌<◌, ◌+◌, String, ◌≡◌, refl, ◌∙◌, ap, Bool, true, false, none, some, ◌⊎◌, inl, inr, ◌++◌, [], ◌∷◌,
  map, ◌==◌, if◌then◌else◌,
}
use realtime_notification_pl.Redis.{plain}
use realtime_notification_pl.Postgres.{Uuid, Notification, NewNotification, has_id}
use realtime_notification_pl.Platform.{Platform}
use realtime_notification_pl.Keys.{registry_key, liveness_key, dedup_key}
use realtime_notification_pl.Keys.Distinct.{keys}
use realtime_notification_pl.World.{World, ok, calm, ◌>>=◌}
use realtime_notification_pl.Core.Idempotency.{mark_seen}
use realtime_notification_pl.Pubsub.InstanceRegistry.{lookup, is_alive, exists}
use realtime_notification_pl.Pubsub.Publisher.{instance_channel, publish_to_instance}
use realtime_notification_pl.Db.Repository.{create, set_delivered, mark_delivered_live}
use realtime_notification_pl.Api.Notifications.{
  Api, Response, live_message, owning_instance, deliver_live, publish_to, persist, on_row,
}

module _ ⦃p : Platform⦄ where
  open p use {postgres}

  -- the instance that Redis names for the user, if its liveness key is there
  abbrev pub LiveOn : World → Uuid → String → Type 0
  LiveOn w u owner =
      (p.redis.peek w.cache 0 (registry_key (p.uuid_text u)) ≡ some (plain owner))
      × (exists (p.redis.peek w.cache 0 (liveness_key owner)) ≡ true)

  -- no instance is named, or the one that is named is not alive
  abbrev pub Unreachable : World → Uuid → Type 0
  Unreachable w u =
      (p.redis.peek w.cache 0 (registry_key (p.uuid_text u)) ≡ none)
      ⊎ ((owner : String) × (p.redis.peek w.cache 0 (registry_key (p.uuid_text u))
            ≡ some (plain owner))
          × (exists (p.redis.peek w.cache 0 (liveness_key owner)) ≡ false))

  abbrev pub deliver_row : Uuid → Notification → Notification
  deliver_row n row = if row.notification_id == n then set_delivered row else row

  abbrev pub answer : Uuid → Bool → Bool → Response
  answer n persisted delivered = record {
    notification_id = n;
    persisted = persisted;
    delivered_live = delivered;
  }

  module _ (body : NewNotification) where
    -- the world after the publish and the UPDATE
    abbrev delivered : String → Notification → World → World
    delivered owner row w =
        let s =
          (postgres.update (λ r. r.notification_id == row.notification_id) set_delivered
            w.session).1 in
        record (calm w) {
          published =
              w.published
              ++ (instance_channel owner, p.dumps (live_message row body.user_id w.now)) ∷ [];
          session = s;
          database = s;
          metrics = record (w.metrics) {
            notifications_delivered_live_total = w.metrics.notifications_delivered_live_total + 1;
          };
        }

    publish_to-calm :
        (owner : String) (row : Notification) (w : World)
        → publish_to body row (some owner) (calm w) ≡ (ok true, delivered owner row w)
    unfolding publish_to_instance mark_delivered_live ◌>>=◌
    publish_to-calm owner row w = refl

    owning_instance-LiveOn :
        (owner : String) (w : World)
        → LiveOn w body.user_id owner
        → owning_instance body.user_id (calm w) ≡ (ok (some owner), calm w)
    unfolding owning_instance lookup is_alive ◌>>=◌
    owning_instance-LiveOn owner w h = rw (h.0, h.1)

    owning_instance-Unreachable :
        (w : World)
        → Unreachable w body.user_id
        → owning_instance body.user_id (calm w) ≡ (ok none, calm w)
    unfolding owning_instance lookup is_alive ◌>>=◌
    owning_instance-Unreachable w (inl h) = rw h
    owning_instance-Unreachable w (inr (owner, h, dead)) = rw (h, dead)

    deliver_live-LiveOn :
        (owner : String) (row : Notification) (w : World)
        → LiveOn w body.user_id owner
        → deliver_live body row (calm w) ≡ (ok true, delivered owner row w)
    unfolding deliver_live ◌>>=◌
    deliver_live-LiveOn owner row w h =
        rw (owning_instance-LiveOn owner w h) (publish_to-calm owner row w)

    pub deliver_live-Unreachable :
        (row : Notification) (w : World)
        → Unreachable w body.user_id
        → deliver_live body row (calm w) ≡ (ok false, calm w)
    unfolding deliver_live ◌>>=◌
    deliver_live-Unreachable row w h = rw (owning_instance-Unreachable w h)

    -- the world after the INSERT, the commit and the flag
    abbrev stored : Api → World → World
    stored self w =
        let s = (postgres.insert body w.database).1 in
        record w {
          cache =
              p.redis.set_ex (dedup_key (p.uuid_text body.notification_id)) (plain "1")
                self.idempotency_guard.ttl_seconds w.cache;
          session = s;
          database = s;
        }

    persist-stored :
        (self : Api) (w : World)
        → persist self body (calm w)
          ≡ on_row body (postgres.insert body w.database).0 (calm (stored self w))
    unfolding persist create mark_seen ◌>>=◌
    persist-stored self w = refl

  module _ (self : Api) (body : NewNotification) (w : World)
      (pos : 0 < self.idempotency_guard.ttl_seconds) where
    -- the flag is no entry of the registry
    stored-LiveOn :
        (owner : String)
        → LiveOn w body.user_id owner
        → LiveOn (stored body self w) body.user_id owner
    stored-LiveOn owner h =
        (simp (p.redis.peek-set_ex, pos, keys) (h.0), simp (p.redis.peek-set_ex, pos, keys) (h.1))

    stored-Unreachable : Unreachable w body.user_id → Unreachable (stored body self w) body.user_id
    stored-Unreachable (inl h) = inl (simp (p.redis.peek-set_ex, pos, keys) h)
    stored-Unreachable (inr (owner, h, dead)) =
        inr (
          owner,
          simp (p.redis.peek-set_ex, pos, keys) h,
          simp (p.redis.peek-set_ex, pos, keys) dead,
        )

    abbrev row : Notification
    row = postgres.new_row body w.database

    -- the world when the live delivery begins
    abbrev counted : World
    counted = record (stored body self w) {
      metrics = record (w.metrics) {
        notifications_persisted_total = w.metrics.notifications_persisted_total + 1;
      };
    }

    -- With every call answered, a notification with a new id, for a user whose instance is alive,
    -- is stored as one new row, marked as delivered, and one message goes out, to the channel of
    -- that instance.
    pub persist_live :
        (owner : String)
        → has_id body.notification_id (postgres.notifications w.database) ≡ false
        → LiveOn w body.user_id owner
        → let (r, w') = persist self body (calm w) in
          (r ≡ ok (answer body.notification_id true true))
          × (w'.published
              ≡ w.published
                ++ (instance_channel owner, p.dumps (live_message row body.user_id w.now)) ∷ [])
          × (postgres.notifications w'.database
              ≡ map
                  (deliver_row body.notification_id)
                  (postgres.notifications w.database ++ row ∷ []))
    unfolding ◌>>=◌
    persist_live owner fresh live =
        let (inserted, rows) = postgres.insert_fresh body w.database fresh in
        rw
          (
            persist-stored body self w,
            inserted,
            deliver_live-LiveOn body owner row counted (stored-LiveOn owner live),
          )
          (
            refl,
            refl,
            (postgres.update_rows (λ r. r.notification_id == row.notification_id) set_delivered
                  (postgres.insert body w.database).1 (λ r. (refl, refl))).1
                ∙ ap (map (deliver_row row.notification_id)) rows
                ∙ ap (λ n. map (deliver_row n) (postgres.notifications w.database ++ row ∷ []))
                    ((postgres.new_row_values body w.database).0),
          )

    -- With every call answered, a notification with a new id, for a user who is connected nowhere
    -- or to an instance that has died, is stored as one new row, and nothing is published.
    pub persist_offline :
        has_id body.notification_id (postgres.notifications w.database) ≡ false
        → Unreachable w body.user_id
        → let (r, w') = persist self body (calm w) in
          (r ≡ ok (answer body.notification_id true false))
          × (w'.published ≡ w.published)
          × (postgres.notifications w'.database ≡ postgres.notifications w.database ++ row ∷ [])
    unfolding ◌>>=◌
    persist_offline fresh gone =
        let (inserted, rows) = postgres.insert_fresh body w.database fresh in
        rw
          (
            persist-stored body self w,
            inserted,
            deliver_live-Unreachable body row counted (stored-Unreachable gone),
          )
          (refl, refl, rows)

    -- With every call answered, a notification whose id is stored already changes no row and
    -- publishes nothing.
    pub persist_conflict :
        has_id body.notification_id (postgres.notifications w.database) ≡ true
        → let (r, w') = persist self body (calm w) in
          (r ≡ ok (answer body.notification_id false false))
          × (w'.published ≡ w.published)
          × (postgres.notifications w'.database ≡ postgres.notifications w.database)
    unfolding ◌>>=◌
    persist_conflict old =
        let (inserted, rows) = postgres.insert_conflict body w.database old in
        rw (persist-stored body self w, inserted) (refl, refl, rows)
