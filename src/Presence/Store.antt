-- ===== src/Presence/Store.antt =====
-- app/presence/presence_store.py
use realtime_notification_pl.Prelude.{ℕ, String, Option, none, some}
use realtime_notification_pl.Redis.{Value, plain, integer}
use realtime_notification_pl.Platform.{Platform}
use realtime_notification_pl.Keys.{presence_key, last_seen_key}
use realtime_notification_pl.World.{Action, value, pure, raise, gets, command_, query, ◌>>=◌, ◌>>◌}

module _ ⦃p : Platform⦄ where
  -- `value.decode()`
  abbrev pub decode : Value → String
  decode (plain t) = t
  decode (integer n) = p.decimal n

  unfoldable pub touch_last_seen : String → Action Unit
  touch_last_seen user_id = do
    now ← gets (λ w. w.now)
    command_ (p.redis.set (last_seen_key user_id) (plain (p.isoformat now)))

  unfoldable pub set_online : String → ℕ → Action Unit
  unfolding touch_last_seen
  set_online user_id ttl_seconds = do
    command_ (p.redis.set_ex (presence_key user_id) (plain "online") ttl_seconds)
    touch_last_seen user_id

  unfoldable pub set_away : String → ℕ → Action Unit
  unfolding touch_last_seen
  set_away user_id ttl_seconds = do
    command_ (p.redis.set_ex (presence_key user_id) (plain "away") ttl_seconds)
    touch_last_seen user_id

  unfoldable pub refresh : String → ℕ → Action Unit
  unfolding touch_last_seen
  refresh user_id ttl_seconds = do
    command_ (p.redis.expire (presence_key user_id) ttl_seconds)
    touch_last_seen user_id

  unfoldable pub clear : String → Action Unit
  clear user_id = command_ (p.redis.delete (presence_key user_id))

  abbrev pub status_of : Option Value → String
  status_of none = "offline"
  status_of (some v) = decode v

  unfoldable pub get_status : String → Action String
  get_status user_id = do
    v ← query (λ s. p.redis.peek s 0 (presence_key user_id))
    pure (status_of v)

  -- `datetime.fromisoformat(raw)`
  abbrev pub parsed : Option ℕ → Action (Option ℕ)
  parsed none = raise value
  parsed (some t) = pure (some t)

  abbrev pub last_seen_of : Option Value → Action (Option ℕ)
  last_seen_of none = pure none
  last_seen_of (some v) = parsed (p.fromisoformat (decode v))

  unfoldable pub get_last_seen : String → Action (Option ℕ)
  get_last_seen user_id = do
    v ← query (λ s. p.redis.peek s 0 (last_seen_key user_id))
    last_seen_of v
