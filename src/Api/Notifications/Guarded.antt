-- ===== src/Api/Notifications/Guarded.antt =====
-- The dedup flags of POST /notifications and the rows that they stand for, under failing calls.
use realtime_notification_pl.Prelude.{
  ℕ, ◌<◌, String, ◌≡◌, ◌≢◌, refl, ◌∙◌, Bool, true, false, Option, none, some, inl, inr, str_eq,
  eq_iff, Bool-cases,
}
use realtime_notification_pl.Redis.{plain}
use realtime_notification_pl.Json.{Json}
use realtime_notification_pl.Postgres.{Uuid, Notification, NewNotification, has_id}
use realtime_notification_pl.Postgres.Rows.{has_id-insert, has_id-insert_self, has_id-update}
use realtime_notification_pl.Platform.{Platform, uuid_text-injective}
use realtime_notification_pl.Keys.{dedup_key}
use realtime_notification_pl.Keys.Distinct.{rate_limit-ne-dedup, dedup_key-injective}
use realtime_notification_pl.World.{World, Metrics, count, command}
use realtime_notification_pl.World.Keeps.{
  In, Triple, Keeps, Triple-pure, Triple-call, Triple-bind, Keeps-pure, Keeps-if, Keeps-modify,
  Keeps-call, Keeps-bind, Keeps-In, keeps_rules,
}
use realtime_notification_pl.World.Frame.{SameBut, Ignores, set_ex-SameBut}
use realtime_notification_pl.Core.RateLimiter.Frame.{allow-Keeps}
use realtime_notification_pl.Core.Idempotency.{IdempotencyGuard, has_seen, mark_seen}
use realtime_notification_pl.Pubsub.InstanceRegistry.{lookup, is_alive}
use realtime_notification_pl.Pubsub.Publisher.{publish_to_instance}
use realtime_notification_pl.Db.Repository.{
  get_session, commit, create, set_delivered, mark_delivered_live,
}
use realtime_notification_pl.Api.Notifications.{
  Api, caller_key, if_alive, publish_to, deliver_live, on_row, persist, unless_seen, when_allowed,
  create_notification,
}

module _ ⦃p : Platform⦄ where
  -- A dedup flag, now or later, stands only for a row that is committed (and that the session sees).
  pub record IsGuarded (s : p.redis.State) (db ses : p.postgres.State) : Type 0 where
    pub rows :
        (n : Uuid) (d : ℕ)
        → p.redis.peek s d (dedup_key (p.uuid_text n)) ≢ none
        → (has_id n (p.postgres.notifications db) ≡ true)
          × (has_id n (p.postgres.notifications ses) ≡ true)

  -- and the row of this id is there too
  record HasRow (n : Uuid) (s : p.redis.State) (db ses : p.postgres.State) : Type 0 where
    guarded : IsGuarded s db ses
    committed : has_id n (p.postgres.notifications db) ≡ true
    seen : has_id n (p.postgres.notifications ses) ≡ true

  IsGuarded-Ignores :
      (k : String)
      → ((n : Uuid) → str_eq k (dedup_key (p.uuid_text n)) ≡ false)
      → Ignores IsGuarded k
  IsGuarded-Ignores k other = record {
    at = λ s s' db ses same h. record {
      rows = λ n d there. h.rows n d (rw (same d (dedup_key (p.uuid_text n)) (other n)) at there);
    };
  }

  if_alive-Keeps : (o : Option String) → Keeps IsGuarded (if_alive o)
  unfolding is_alive
  if_alive-Keeps none = search keeps_rules
  if_alive-Keeps (some owner) = search keeps_rules

  -- a commit publishes a session that has every flagged row
  commit-Keeps : Keeps IsGuarded commit
  commit-Keeps =
      Keeps-call IsGuarded _
        (λ w h. record { rows = λ n d there. let (_, seen) = h.rows n d there in (seen, seen) })

  mark_delivered-Keeps : (n : Uuid) → Keeps IsGuarded (mark_delivered_live n)
  unfolding mark_delivered_live
  mark_delivered-Keeps n =
      Keeps-bind IsGuarded _ _
        (Keeps-call IsGuarded _ (λ w h. record {
          rows = λ m d there.
              let (committed, seen) = h.rows m d there in
              (
                committed,
                has_id-update p.postgres m _ set_delivered w.session (λ r. (refl, refl)) ∙ seen,
              );
        }))
        (λ _. commit-Keeps)

  publish-Keeps :
      (owner : String) (message : Json) → Keeps IsGuarded (publish_to_instance owner message)
  unfolding publish_to_instance
  publish-Keeps owner message = Keeps-call IsGuarded _ (λ w h. h)

  count-Keeps : (f : Metrics → Metrics) → Keeps IsGuarded (count f)
  count-Keeps f = Keeps-modify IsGuarded _ (λ w h. h)

  ruleset guarded_rules =
      (keeps_rules, if_alive-Keeps, mark_delivered-Keeps, publish-Keeps, count-Keeps)

  publish_to-Keeps :
      (body : NewNotification) (row : Notification) (o : Option String)
      → Keeps IsGuarded (publish_to body row o)
  publish_to-Keeps body row none = search guarded_rules
  publish_to-Keeps body row (some owner) = search guarded_rules depth 9

  deliver_live-Keeps :
      (body : NewNotification) (row : Notification) → Keeps IsGuarded (deliver_live body row)
  unfolding deliver_live lookup
  deliver_live-Keeps body row = search (guarded_rules, publish_to-Keeps) depth 7

  on_row-Keeps :
      (body : NewNotification) (o : Option Notification) → Keeps IsGuarded (on_row body o)
  on_row-Keeps body none = search guarded_rules
  on_row-Keeps body (some row) = search (guarded_rules, deliver_live-Keeps) depth 7

  has_seen-Keeps : (n : Uuid) → Keeps IsGuarded (has_seen n)
  unfolding has_seen
  has_seen-Keeps n = search keeps_rules

  module _ (body : NewNotification) where
    abbrev id : Uuid
    id = body.notification_id

    -- the INSERT is carried out in the session, and not yet committed
    record Inserted (s : p.redis.State) (db ses : p.postgres.State) : Type 0 where
      guarded : IsGuarded s db ses
      seen : has_id id (p.postgres.notifications ses) ≡ true

    insert-Inserted :
        (w : World)
        → In IsGuarded w
        → Inserted w.cache w.database (p.postgres.insert body w.session).1
    insert-Inserted w h = record {
      guarded = record {
        rows = λ m d there.
            let (committed, seen) = h.rows m d there in
            (committed, has_id-insert p.postgres m body w.session seen);
      };
      seen = has_id-insert_self p.postgres body w.session;
    }

    commit-HasRow :
        (s : p.redis.State) (db ses : p.postgres.State) → Inserted s db ses → HasRow id s ses ses
    commit-HasRow s db ses h = record {
      guarded = record {
        rows = λ n d there. let (_, seen) = h.guarded.rows n d there in (seen, seen);
      };
      committed = h.seen;
      seen = h.seen;
    }

    -- A row is confirmed before `create` returns, whether it was inserted or was there.
    create-HasRow : Triple IsGuarded IsGuarded (λ _. HasRow id) (create body)
    unfolding create
    create-HasRow =
        Triple-bind IsGuarded IsGuarded (λ _. Inserted) (λ _. HasRow id) _ _
          (Triple-call IsGuarded IsGuarded (λ _. Inserted) _ insert-Inserted (λ w h. h)
            (λ a w h. h.guarded))
          (λ row.
            Triple-bind IsGuarded Inserted (λ _. HasRow id) (λ _. HasRow id) _ _
              (Triple-call IsGuarded Inserted (λ _. HasRow id) _
                (λ w h. commit-HasRow w.cache w.database w.session h) (λ w h. h.guarded)
                (λ a w h. h.guarded))
              (λ _. Triple-pure IsGuarded (HasRow id) (λ _. HasRow id) row (λ w h. h)))

    flagged :
        (s : p.redis.State) (db ses : p.postgres.State)
        → HasRow id s db ses
        → (n : Uuid) (d : ℕ) (s' : p.redis.State) → SameBut (dedup_key (p.uuid_text id)) s s'
        → p.redis.peek s' d (dedup_key (p.uuid_text n)) ≢ none
        → (has_id n (p.postgres.notifications db) ≡ true)
          × (has_id n (p.postgres.notifications ses) ≡ true)
    flagged s db ses h n d s' same there =
        elim (Bool-cases (str_eq (dedup_key (p.uuid_text id)) (dedup_key (p.uuid_text n)))) [
          | inl e ↦
              let this : id ≡ n =
                uuid_text-injective p id n (dedup_key-injective _ _ ((eq_iff _ _).0 e)) in
              rw (← this) (h.committed, h.seen)
          | inr e ↦ h.guarded.rows n d (rw (same d (dedup_key (p.uuid_text n)) e) at there)
        ]

    -- the flag is set only when the row is confirmed
    mark_seen-IsGuarded :
        (self : IdempotencyGuard)
        → 0 < self.ttl_seconds
        → Triple IsGuarded (HasRow id) (λ _. IsGuarded) (mark_seen self id)
    unfolding mark_seen command
    mark_seen-IsGuarded self pos =
        Triple-call IsGuarded (HasRow id) (λ _. IsGuarded) _
          (λ w h. record {
            rows = λ n d. flagged w.cache w.database w.session h n d _ (
                set_ex-SameBut (dedup_key (p.uuid_text id)) w.cache (plain "1") self.ttl_seconds
                  pos);
          })
          (λ w h. h.guarded) (λ a w h. h)

    get_session-Keeps : Keeps IsGuarded get_session
    get_session-Keeps =
        Keeps-modify IsGuarded (λ w. record w { session = w.database })
          (λ w h. record {
            rows = λ n d there. let (committed, _) = h.rows n d there in (committed, committed);
          })

    persist-Keeps :
        (self : Api) → 0 < self.idempotency_guard.ttl_seconds → Keeps IsGuarded (persist self body)
    unfolding persist
    persist-Keeps self pos = Keeps-bind IsGuarded _ _ get_session-Keeps (λ _.
        Triple-bind IsGuarded IsGuarded (λ _. HasRow id) (λ _. IsGuarded) _ _ create-HasRow
          (λ row.
            Triple-bind IsGuarded (HasRow id) (λ _. IsGuarded) (λ _. IsGuarded) _ _
              (mark_seen-IsGuarded self.idempotency_guard pos) (λ _. on_row-Keeps body row)))

    unless_seen-Keeps :
        (self : Api)
        → 0 < self.idempotency_guard.ttl_seconds
        → Keeps IsGuarded (unless_seen self body)
    unfolding unless_seen
    unless_seen-Keeps self pos =
        Keeps-bind IsGuarded _ _ (has_seen-Keeps id)
          (λ b. Keeps-if IsGuarded b _ _ (Keeps-pure IsGuarded _) (persist-Keeps self pos))

    when_allowed-Keeps :
        (self : Api) (b : Bool)
        → 0 < self.idempotency_guard.ttl_seconds
        → Keeps IsGuarded (when_allowed self body b)
    when_allowed-Keeps self true pos = unless_seen-Keeps self pos
    when_allowed-Keeps self false pos = search keeps_rules

  -- If each dedup flag stands for a committed row, it still does after the handler, whatever calls
  -- fail. The window of the limiter and the lifetime of a flag are positive.
  pub create_notification-IsGuarded :
      (self : Api) (client : Option String) (body : NewNotification) (w : World)
      → 0 < self.api_rate_limiter.window_seconds
      → 0 < self.idempotency_guard.ttl_seconds
      → In IsGuarded w
      → In IsGuarded (create_notification self client body w).1
  unfolding create_notification
  create_notification-IsGuarded self client body w window ttl =
      Keeps-In IsGuarded (create_notification self client body)
        (Keeps-bind IsGuarded _ _
          (allow-Keeps IsGuarded self.api_rate_limiter (caller_key client) window
            (IsGuarded-Ignores _ (λ n. rate_limit-ne-dedup _ _)))
          (λ b. when_allowed-Keeps body self b ttl))
        w
