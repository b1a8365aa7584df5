-- ===== src/Core/RateLimiter/Window.antt =====
-- What a connection is granted in one window of app/core/rate_limiter.py.
use Prim.Native.Nat.{◌^◌, min}
use text.Mathlib.TextPositions.{eq_refl}
use realtime_notification_pl.Prelude.{
  ℕ, suc, ◌+◌, ◌-◌, ◌≤◌, ◌<◌, String, ◌≡◌, refl, ◌∙◌, Bool, true, none, some, List, [], ◌∷◌, arith,
  ltb, leb, lt→ltb, if◌then◌else◌, Option-cases, inl, inr,
}
use realtime_notification_pl.Prelude.Lists.{length}
use realtime_notification_pl.Redis.{integer}
use realtime_notification_pl.Platform.{Platform}
use realtime_notification_pl.Keys.{rate_limit_key}
use realtime_notification_pl.World.{World, Result, ok, calm, wait, ◌>>=◌}
use realtime_notification_pl.Core.RateLimiter.{RateLimiter, allow, token_bucket}

module _ ⦃p : Platform⦄ where
  -- `n` calls were counted, and the window closes in `left` seconds
  abbrev pub IsOpen : World → String → ℕ → ℕ → Type 0
  IsOpen w id n left =
      (d : ℕ)
      → p.redis.peek w.cache d (rate_limit_key id) ≡ (if ltb d left then some (integer n) else none)

  abbrev pub IsFresh : World → String → Type 0
  IsFresh w id = p.redis.peek w.cache 0 (rate_limit_key id) ≡ none

  -- the verdict of a call, in a world where the services answer
  abbrev pub granted : Result Bool → ℕ
  granted (ok true) = 1
  granted _ = 0

  -- how many calls are granted, each made the given number of seconds after the one before
  unfoldable pub admitted : RateLimiter → String → List ℕ → World → ℕ
  admitted self id [] w = 0
  admitted self id (gap ∷ gaps) w =
      let (r, w') = allow self id (calm (wait gap w)) in granted r + admitted self id gaps w'

  abbrev pub sum : List ℕ → ℕ
  sum [] = 0
  sum (x ∷ xs) = x + sum xs

  -- the script's answer to the call that brings the count to `n`
  abbrev answer : ℕ → ℕ → ℕ
  answer limit n = if ltb limit n then 0 else 1

  module _ (key : String) (limit window : ℕ) (s : p.redis.State) where
    token_bucket_first :
        0 < window
        → p.redis.peek s 0 key ≡ none
        → let (r, s') = token_bucket key limit window s in
          (r ≡ some (answer limit 1))
          × ((d : ℕ) → p.redis.peek s' d key ≡ (if ltb d window then some (integer 1) else none))
    unfolding token_bucket
    token_bucket_first pos h =
        rw (p.redis.incr_missing key s h)
          (refl, λ d. simp (p.redis.peek-expire, p.redis.peek-incr_missing, eq_refl, pos, h))

    token_bucket_next :
        (n left : ℕ)
        → 0 < left
        → n + 2 < 2 ^ 63
        → ((d : ℕ) → p.redis.peek s d key ≡ (if ltb d left then some (integer (suc n)) else none))
        → let (r, s') = token_bucket key limit window s in
          (r ≡ some (answer limit (suc (suc n))))
          × ((d : ℕ)
              → p.redis.peek s' d key ≡ (if ltb d left then some (integer (suc (suc n))) else none))
    unfolding token_bucket
    token_bucket_next n left pos small h =
        let there : p.redis.peek s 0 key ≡ some (integer (suc n)) =
          h 0 ∙ rw (lt→ltb 0 left pos) refl in
        rw (p.redis.incr_counter key s (suc n) there (omega arith)) (
          ground arith,
          λ d. ground (
            arith,
            p.redis.peek-incr_counter key s (suc n) d key there (omega arith),
            eq_refl key,
            h d,
          ),
        )

  module _ (self : RateLimiter) (id : String) where
    pub allow_first :
        (w : World)
        → 0 < self.window_seconds
        → IsFresh w id
        → ((allow self id (calm w)).0 ≡ ok (leb 1 self.limit))
          × IsOpen (allow self id (calm w)).1 id 1 self.window_seconds
    unfolding allow ◌>>=◌
    allow_first w pos h =
        let (answered, opened) =
          token_bucket_first (rate_limit_key id) self.limit self.window_seconds w.cache pos h in
        rw answered (ground arith, opened)

    pub allow_next :
        (w : World) (n left : ℕ)
        → 0 < left
        → n + 2 < 2 ^ 63
        → IsOpen w id (suc n) left
        → ((allow self id (calm w)).0 ≡ ok (leb (suc (suc n)) self.limit))
          × IsOpen (allow self id (calm w)).1 id (suc (suc n)) left
    unfolding allow ◌>>=◌
    allow_next w n left pos small h =
        let (answered, still) =
          token_bucket_next (rate_limit_key id) self.limit self.window_seconds w.cache n left pos
            small h in
        rw answered (ground arith, still)

    -- the services still answer
    pub allow-calm : (w : World) → (allow self id (calm w)).1.schedule ≡ []
    unfolding allow ◌>>=◌
    allow-calm w =
        elim (Option-cases
          ((token_bucket (rate_limit_key id) self.limit self.window_seconds w.cache).0)) [
            | inl failed ↦ rw failed refl
            | inr (n, counted) ↦ rw counted refl
          ]

    pub wait-IsOpen :
        (w : World) (gap n left : ℕ)
        → gap < left
        → IsOpen w id n left
        → IsOpen (wait gap w) id n (left - gap)
    wait-IsOpen w gap n left lt h d =
        ground (arith, p.redis.peek-elapse gap w.cache d (rate_limit_key id), h (gap + d))

    -- a window that has seen n + 1 calls grants what is left of the limit
    admitted-IsOpen :
        (gaps : List ℕ) (w : World) (n left : ℕ)
        → sum gaps < left
        → suc n + length gaps < 2 ^ 63
        → IsOpen w id (suc n) left
        → admitted self id gaps w + min (suc n) self.limit ≡ min (suc n + length gaps) self.limit
    unfolding admitted
    admitted-IsOpen [] w n left lt small h = omega arith
    admitted-IsOpen (gap ∷ gaps) w n left lt small h =
        let waited = wait-IsOpen w gap (suc n) left (omega arith) h in
        let (answered, still) =
          allow_next (wait gap w) n (left - gap) (omega arith) (omega arith) waited in
        let rest =
          admitted-IsOpen gaps (allow self id (calm (wait gap w))).1 (suc n) (left - gap)
            (omega arith) (omega arith) still in
        rw answered (ground (arith, rest))

    -- From a connection that has no open window, calls that all fall into the window which the
    -- first of them opens, fewer than 2 ^ 63 and each answered, are granted up to the limit, and
    -- no further.
    pub admitted-eq-min :
        (gap : ℕ) (gaps : List ℕ) (w : World)
        → IsFresh (wait gap w) id
        → sum gaps < self.window_seconds
        → suc (length gaps) < 2 ^ 63
        → admitted self id (gap ∷ gaps) w ≡ min (suc (length gaps)) self.limit
    unfolding admitted
    admitted-eq-min gap gaps w h lt small =
        let (answered, opened) = allow_first (wait gap w) (omega arith) h in
        let rest =
          admitted-IsOpen gaps (allow self id (calm (wait gap w))).1 0 self.window_seconds lt
            (omega arith) opened in
        rw answered (ground (arith, rest))

    -- Once the window has closed, whatever its count was, a full limit is granted again to calls
    -- that fall into one new window, fewer than 2 ^ 63 and each answered.
    pub admitted_after_window :
        (gap : ℕ) (gaps : List ℕ) (w : World) (n left : ℕ)
        → IsOpen w id n left
        → left ≤ gap
        → sum gaps < self.window_seconds
        → suc (length gaps) < 2 ^ 63
        → admitted self id (gap ∷ gaps) w ≡ min (suc (length gaps)) self.limit
    admitted_after_window gap gaps w n left h late =
        admitted-eq-min gap gaps w
          (ground (arith, p.redis.peek-elapse gap w.cache 0 (rate_limit_key id), h (gap + 0)))
