-- ===== src/Core/RateLimiter/Frame.antt =====
-- A call of the limiter, and what is not its counter.
use realtime_notification_pl.Prelude.{
  ℕ, ◌<◌, String, refl, ◌∙◌, Option, none, some, arith, Option-cases, inl, inr,
}
use realtime_notification_pl.Platform.{Platform}
use realtime_notification_pl.Keys.{rate_limit_key}
use realtime_notification_pl.World.{World, command, calm, ◌>>=◌}
use realtime_notification_pl.World.Quiet.{Keeping, Within, Within-pure, Within-raise, Within-bind}
use realtime_notification_pl.World.Keeps.{Stored, Keeps, Keeps-pure, Keeps-raise, Keeps-bind}
use realtime_notification_pl.World.Frame.{SameBut, expire-SameBut, Ignores, Keeps-command}
use realtime_notification_pl.Core.RateLimiter.{RateLimiter, admit, token_bucket, verdict, allow}

module _ ⦃p : Platform⦄ where
  admit-SameBut :
      (key : String) (limit window : ℕ) (o : Option ℕ) (s : p.redis.State)
      → 0 < window
      → SameBut key s (admit key limit window o s).1
  unfolding admit
  admit-SameBut key limit window none s pos d j h = refl
  admit-SameBut key limit window (some n) s pos d j h =
      ground (arith, expire-SameBut key s window pos d j h)

  token_bucket-SameBut :
      (key : String) (limit window : ℕ) (s : p.redis.State)
      → 0 < window
      → SameBut key s (token_bucket key limit window s).1
  unfolding token_bucket
  token_bucket-SameBut key limit window s pos d j h =
      let (o, s') = p.redis.incr key s in
      admit-SameBut key limit window o s' pos d j h ∙ p.redis.peek-incr_ne key s d j h

  verdict-Keeps : (P : Stored) (o : Option ℕ) → Keeps P (verdict o)
  unfolding verdict
  verdict-Keeps P none = Keeps-raise P _
  verdict-Keeps P (some n) = Keeps-pure P _

  pub allow-Keeps :
      (P : Stored) (self : RateLimiter) (id : String)
      → 0 < self.window_seconds
      → Ignores P (rate_limit_key id)
      → Keeps P (allow self id)
  unfolding allow
  allow-Keeps P self id pos ign =
      Keeps-bind P _ verdict
        (Keeps-command P (rate_limit_key id)
          (token_bucket (rate_limit_key id) self.limit self.window_seconds) ign
          (λ s. token_bucket-SameBut (rate_limit_key id) self.limit self.window_seconds s pos))
        (verdict-Keeps P)

  -- a property that no command to Redis can break
  pub allow-Keeps_always :
      (P : Stored) (self : RateLimiter) (id : String)
      → ((f : p.redis.State → Option ℕ × p.redis.State) → Keeps P (command f))
      → Keeps P (allow self id)
  unfolding allow
  allow-Keeps_always P self id k = Keeps-bind P _ verdict (k _) (verdict-Keeps P)

  verdict-Within : (R : World → World → Type 0) → Keeping R → (o : Option ℕ) → Within R (verdict o)
  unfolding verdict
  verdict-Within R keeping none = Within-raise R keeping _
  verdict-Within R keeping (some n) = Within-pure R keeping _

  pub allow-Within :
      (R : World → World → Type 0) (self : RateLimiter) (id : String)
      → Keeping R
      → ((f : p.redis.State → Option ℕ × p.redis.State) → Within R (command f))
      → Within R (allow self id)
  unfolding allow
  allow-Within R self id keeping k =
      Within-bind R keeping _ verdict (k _) (verdict-Within R keeping)

  -- an answered call, and the keys that are not its counter
  pub allow-SameBut :
      (self : RateLimiter) (id : String) (w : World)
      → 0 < self.window_seconds
      → SameBut (rate_limit_key id) w.cache (allow self id (calm w)).1.cache
  unfolding allow verdict ◌>>=◌
  allow-SameBut self id w pos d j h =
      let key = rate_limit_key id in
      let same = token_bucket-SameBut key self.limit self.window_seconds w.cache pos d j h in
      elim (Option-cases ((token_bucket key self.limit self.window_seconds w.cache).0)) [
        | inl failed ↦ rw failed same
        | inr (n, counted) ↦ rw counted same
      ]
