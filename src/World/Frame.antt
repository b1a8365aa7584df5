-- ===== src/World/Frame.antt =====
-- A command to Redis, and the keys that it does not name.
use realtime_notification_pl.Prelude.{ℕ, ◌<◌, String, ◌≡◌, refl, sym, ap, [], false, str_eq}
use realtime_notification_pl.Redis.{Value}
use realtime_notification_pl.Platform.{Platform}
use realtime_notification_pl.World.{World, calm, command}
use realtime_notification_pl.World.Keeps.{Stored, Keeps, Keeps-call}

module _ ⦃p : Platform⦄ where
  -- nothing is left of the schedule already
  pub calm-eq : (w : World) → w.schedule ≡ [] → calm w ≡ w
  calm-eq w h = ap (λ fs. record w { schedule = fs }) (sym h)

  abbrev pub SameBut : String → p.redis.State → p.redis.State → Type 0
  SameBut k s s' =
      (d : ℕ) (j : String) → str_eq k j ≡ false → p.redis.peek s' d j ≡ p.redis.peek s d j

  module _ (k : String) (s : p.redis.State) where
    pub set-SameBut : (v : Value) → SameBut k s (p.redis.set k v s)
    set-SameBut v d j h = simp (p.redis.peek-set, h)

    pub set_ex-SameBut : (v : Value) (ttl : ℕ) → 0 < ttl → SameBut k s (p.redis.set_ex k v ttl s)
    set_ex-SameBut v ttl pos d j h = simp (p.redis.peek-set_ex, h, pos)

    pub expire-SameBut : (ttl : ℕ) → 0 < ttl → SameBut k s (p.redis.expire k ttl s)
    expire-SameBut ttl pos d j h = simp (p.redis.peek-expire, h, pos)

    pub delete-SameBut : SameBut k s (p.redis.delete k s)
    delete-SameBut d j h = simp (p.redis.peek-delete, h)

    pub refl-SameBut : SameBut k s s
    refl-SameBut d j h = refl

  -- `P` says nothing about the key `k`
  pub record Ignores (P : Stored) (k : String) : Type 0 where
    pub at :
        (s s' : p.redis.State) (db ses : p.postgres.State)
        → SameBut k s s'
        → P s db ses
        → P s' db ses

  pub Keeps-command :
      {A : Type 0} (P : Stored) (k : String) (f : p.redis.State → A × p.redis.State)
      → Ignores P k
      → ((s : p.redis.State) → SameBut k s (f s).1)
      → Keeps P (command f)
  unfolding command
  Keeps-command P k f ign same =
      Keeps-call P (λ w. let (a, s) = f w.cache in (a, record w { cache = s }))
        (λ w h. ign.at w.cache (f w.cache).1 w.database w.session (same w.cache) h)
