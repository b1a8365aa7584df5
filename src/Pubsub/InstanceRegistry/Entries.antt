-- ===== src/Pubsub/InstanceRegistry/Entries.antt =====
-- A user's entry of app/pubsub/instance_registry.py.
use text.Mathlib.TextPositions.{eq_refl}
use realtime_notification_pl.Prelude.{ℕ, ◌<◌, String, ◌≡◌, some, none, arith, ltb, if◌then◌else◌}
use realtime_notification_pl.Platform.{Platform}
use realtime_notification_pl.World.{World, ok, calm, wait, ◌>>=◌}
use realtime_notification_pl.Pubsub.InstanceRegistry.{register, refresh, unregister, lookup}

module _ ⦃p : Platform⦄ (u instance : String) (ttl : ℕ) (w : World) where
  -- With Redis answering, an entry names its instance until its positive lifetime has passed since
  -- it was made or last refreshed in time, and an unregistered user has none.
  pub lookup-register :
      (c d : ℕ)
      → 0 < ttl
      → let made = (register u instance ttl (calm w)).1 in
        let renewed = (refresh u ttl (calm (wait c made))).1 in
        ((lookup u (calm (wait d made))).0 ≡ ok (if ltb d ttl then some instance else none))
        × ((lookup u (calm (wait d renewed))).0
            ≡ ok (if ltb c ttl then if ltb d ttl then some instance else none else none))
        × ((lookup u (calm (wait d (unregister u (calm renewed)).1))).0 ≡ ok none)
  unfolding register refresh unregister lookup ◌>>=◌
  lookup-register c d pos = (
    simp (p.redis.peek-elapse, p.redis.peek-set_ex, eq_refl, pos) (ground arith),
    simp (p.redis.peek-expire, p.redis.peek-elapse, p.redis.peek-set_ex, eq_refl, pos)
        (ground arith),
    simp (p.redis.peek-elapse, p.redis.peek-delete, eq_refl),
  )
