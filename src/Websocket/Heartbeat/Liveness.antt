-- ===== src/Websocket/Heartbeat/Liveness.antt =====
-- The liveness key of an instance, kept by the loop of app/websocket/heartbeat.py.
use text.Mathlib.TextPositions.{eq_refl}
use realtime_notification_pl.Prelude.Lists.{replicate}
use realtime_notification_pl.Prelude.{
  ℕ, zero, suc, ◌+◌, ◌*◌, ◌≤◌, ◌<◌, true, ◌≡◌, ◌∙◌, refl, ap, Option, none, some, arith, ltb,
  if◌then◌else◌,
}
use realtime_notification_pl.Redis.{Value, plain}
use realtime_notification_pl.Platform.{Platform}
use realtime_notification_pl.Keys.{liveness_key}
use realtime_notification_pl.World.{World, refused, ok, calm, wait, ◌>>=◌}
use realtime_notification_pl.Pubsub.InstanceRegistry.{mark_alive, is_alive}
use realtime_notification_pl.Websocket.Heartbeat.{
  InstanceLivenessLoop, interval_seconds, start, round, rounds,
}

-- For a lifetime of at least three seconds, three refreshes fit into it, and the loop never spins.
pub interval_seconds_bounds :
    (self : InstanceLivenessLoop)
    → 3 ≤ self.ttl_seconds
    → (1 ≤ interval_seconds self) × (interval_seconds self * 3 ≤ self.ttl_seconds)
unfolding interval_seconds
interval_seconds_bounds self h = omega arith

at_most_twice : (k i : ℕ) → k ≤ 2 → k * i ≤ 2 * i
at_most_twice zero i h = omega arith
at_most_twice (suc zero) i h = omega arith
at_most_twice (suc (suc zero)) i h = omega arith
at_most_twice (suc (suc (suc k))) i h = absurd (omega (arith, h))

module _ ⦃p : Platform⦄ (self : InstanceLivenessLoop) where
  -- the key was refreshed just now
  abbrev pub Refreshed : World → Type 0
  Refreshed w =
      (d : ℕ)
      → p.redis.peek w.cache d (liveness_key self.instance_id)
        ≡ (if ltb d self.ttl_seconds then some (plain "1") else none)

  start-Refreshed : (w : World) → 0 < self.ttl_seconds → Refreshed (start self (calm w)).1
  unfolding start mark_alive ◌>>=◌
  start-Refreshed w pos d = simp (p.redis.peek-set_ex, eq_refl, pos)

  round-Refreshed : (w : World) → 0 < self.ttl_seconds → Refreshed (round self (calm w)).1
  unfolding round mark_alive ◌>>=◌
  round-Refreshed w pos d = simp (p.redis.peek-set_ex, eq_refl, pos)

  rounds-Refreshed :
      (n : ℕ) (w : World)
      → 0 < self.ttl_seconds
      → Refreshed w
      → Refreshed (rounds self n (calm w)).1
  unfolding rounds mark_alive ◌>>=◌
  rounds-Refreshed zero w pos h = h
  rounds-Refreshed (suc n) w pos h =
      rounds-Refreshed n (round self (calm w)).1 pos (round-Refreshed w pos)

  start-now : (w : World) → (start self (calm w)).1.now ≡ w.now
  unfolding start mark_alive ◌>>=◌
  start-now w = refl

  -- the clock after answered rounds
  rounds-now :
      (n : ℕ) (w : World) → (rounds self n (calm w)).1.now ≡ w.now + n * interval_seconds self
  unfolding rounds mark_alive ◌>>=◌
  rounds-now zero w = omega arith
  rounds-now (suc n) w = omega (arith, rounds-now n (round self (calm w)).1)

  -- what the key holds so many seconds after a refresh
  abbrev at_age : ℕ → Option Value
  at_age t = if ltb t self.ttl_seconds then some (plain "1") else none

  -- the key was refreshed `t` seconds ago
  abbrev Aged : ℕ → World → Type 0
  Aged t w = (d : ℕ) → p.redis.peek w.cache d (liveness_key self.instance_id) ≡ at_age (t + d)

  -- the next calls are refused
  abbrev pub refusing : ℕ → World → World
  refusing k w = record w { schedule = replicate k refused }

  -- rounds whose refresh is refused only let the time pass
  missed-Aged :
      (k t : ℕ) (w : World)
      → Aged t w
      → let w' = (rounds self k (refusing k w)).1 in
        Aged (t + k * interval_seconds self) w' × (w'.now ≡ w.now + k * interval_seconds self)
  unfolding rounds mark_alive ◌>>=◌
  missed-Aged zero t w h = (λ d. h d ∙ ap at_age (omega arith), omega arith)
  missed-Aged (suc k) t w h =
      let i = interval_seconds self in
      let (aged, time) =
        missed-Aged k (t + i) (wait i w)
          (λ d. p.redis.peek-elapse i w.cache d _ ∙ h (i + d) ∙ ap at_age (omega arith)) in
      (λ d. aged d ∙ ap at_age (omega arith), time ∙ omega arith)

  -- The loop starts and runs any number of rounds with Redis answering; then none, one or two
  -- rounds are refused by Redis. One interval of the loop has passed per round, and the instance
  -- counts as alive then and at any moment until the next round is due. The lifetime of its key is
  -- at least three seconds.
  pub missed_rounds-is_alive :
      (n k d : ℕ) (w : World)
      → 3 ≤ self.ttl_seconds
      → k ≤ 2
      → d < interval_seconds self
      → let w1 = (rounds self n (calm (start self (calm w)).1)).1 in
        let w2 = (rounds self k (refusing k w1)).1 in
        ((is_alive self.instance_id (calm (wait d w2))).0 ≡ ok true)
        × (w2.now ≡ w.now + (n + k) * interval_seconds self)
  unfolding is_alive ◌>>=◌
  missed_rounds-is_alive n k d w long few soon =
      let started = (start self (calm w)).1 in
      let w1 = (rounds self n (calm started)).1 in
      let (aged, time) = missed-Aged k 0 w1 (λ d.
        rounds-Refreshed n started (omega (arith, long)) (start-Refreshed w (omega (arith, long))) d
        ∙ ap at_age (omega arith)) in
      let bound : k * interval_seconds self + d < self.ttl_seconds = omega (
        arith,
        soon,
        at_most_twice k (interval_seconds self) few,
        (interval_seconds_bounds self long).1,
      ) in
      (
        rw (p.redis.peek-elapse, aged) (ground (arith, bound)),
        time ∙ omega (arith, rounds-now n started, start-now w),
      )
