-- ===== src/Core/Idempotency/Window.antt =====
-- The memory of app/core/idempotency.py.
use text.Mathlib.TextPositions.{eq_refl}
use realtime_notification_pl.Prelude.{ℕ, ◌<◌, ◌≡◌, ◌≢◌, arith, ltb}
use realtime_notification_pl.Postgres.{Uuid}
use realtime_notification_pl.Platform.{Platform, uuid_text-injective}
use realtime_notification_pl.Keys.{dedup_key}
use realtime_notification_pl.Keys.Distinct.{dedup_key-injective, eq_false}
use realtime_notification_pl.World.{World, ok, calm, wait, ◌>>=◌}
use realtime_notification_pl.Core.Idempotency.{IdempotencyGuard, has_seen, mark_seen}

module _ ⦃p : Platform⦄ (self : IdempotencyGuard) (n : Uuid) (w : World) where
  -- With Redis answering, an id that was marked is seen exactly until its positive lifetime has
  -- passed; what the guard says of any other id is what it would have said without the mark.
  pub has_seen-mark_seen :
      (d : ℕ)
      → 0 < self.ttl_seconds
      → ((has_seen n (calm (wait d (mark_seen self n (calm w)).1))).0 ≡ ok (ltb d self.ttl_seconds))
        × ((m : Uuid)
            → n ≢ m
            → (has_seen m (calm (wait d (mark_seen self n (calm w)).1))).0
              ≡ (has_seen m (calm (wait d w))).0)
  unfolding has_seen mark_seen ◌>>=◌
  has_seen-mark_seen d pos = (
    simp (p.redis.peek-elapse, p.redis.peek-set_ex, eq_refl, pos) (ground arith),
    λ m ne.
        let other =
          eq_false (dedup_key (p.uuid_text n)) (dedup_key (p.uuid_text m))
            (λ e. ne (uuid_text-injective p n m (dedup_key-injective _ _ e))) in
        simp (p.redis.peek-elapse, p.redis.peek-set_ex, other, pos),
  )
