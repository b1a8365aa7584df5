-- ===== src/Websocket/Heartbeat/Expiry.antt =====
-- Heartbeats of a user whose entries have expired.
use text.Mathlib.TextPositions.{eq_refl}
use realtime_notification_pl.Prelude.{ℕ, ◌<◌, String, ◌≡◌, none, List, [], ◌∷◌, arith}
use realtime_notification_pl.Platform.{Platform}
use realtime_notification_pl.Keys.{presence_key, registry_key}
use realtime_notification_pl.Keys.Distinct.{keys}
use realtime_notification_pl.World.{World, ok, calm, wait, ◌>>=◌}
use realtime_notification_pl.Presence.Manager.{heartbeat}
use realtime_notification_pl.Presence.Store.{get_status}
use realtime_notification_pl.Pubsub.InstanceRegistry.{refresh, lookup}
use realtime_notification_pl.Websocket.Heartbeat.{HeartbeatHandler, handle}

module _ ⦃p : Platform⦄ where
  -- heartbeats, each the given number of seconds after what came before
  abbrev pub beats : HeartbeatHandler → String → List ℕ → World → World
  beats self u [] w = w
  beats self u (gap ∷ gaps) w = beats self u gaps (handle self u (calm (wait gap w))).1

  -- neither a presence nor an owner is recorded, now or later
  pub record IsLost (u : String) (w : World) : Type 0 where
    pub presence : (d : ℕ) → p.redis.peek w.cache d (presence_key u) ≡ none
    pub owner : (d : ℕ) → p.redis.peek w.cache d (registry_key u) ≡ none

  module _ (self : HeartbeatHandler) (u : String) where
    handle-IsLost :
        (gap : ℕ) (w : World)
        → 0 < self.ttl_seconds
        → 0 < self.presence.ttl_seconds
        → IsLost u w
        → IsLost u (handle self u (calm (wait gap w))).1
    unfolding handle heartbeat refresh ◌>>=◌
    handle-IsLost gap w pos pos' h = record {
      presence = λ d.
          simp
            (
              p.redis.peek-expire, p.redis.peek-set, p.redis.peek-elapse, keys, eq_refl, pos, pos',
              h.presence,
            )
            (ground arith);
      owner = λ d.
          simp
            (
              p.redis.peek-expire, p.redis.peek-set, p.redis.peek-elapse, keys, eq_refl, pos, pos',
              h.owner,
            )
            (ground arith);
    }

    beats-IsLost :
        (gaps : List ℕ) (w : World)
        → 0 < self.ttl_seconds
        → 0 < self.presence.ttl_seconds
        → IsLost u w
        → IsLost u (beats self u gaps w)
    beats-IsLost [] w pos pos' h = h
    beats-IsLost (gap ∷ gaps) w pos pos' h =
        beats-IsLost gaps _ pos pos' (handle-IsLost gap w pos pos' h)

    -- Once the entries of a user have expired, no number of answered heartbeats brings them back:
    -- the user is offline and unowned. The lifetimes are positive.
    pub beats_restore_nothing :
        (gaps : List ℕ) (w : World)
        → 0 < self.ttl_seconds
        → 0 < self.presence.ttl_seconds
        → IsLost u w
        → ((get_status u (calm (beats self u gaps w))).0 ≡ ok "offline")
          × ((lookup u (calm (beats self u gaps w))).0 ≡ ok none)
    unfolding get_status lookup ◌>>=◌
    beats_restore_nothing gaps w pos pos' h =
        let lost = beats-IsLost gaps w pos pos' h in (rw (lost.presence 0), rw (lost.owner 0))
