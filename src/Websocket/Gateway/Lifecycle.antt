-- ===== src/Websocket/Gateway/Lifecycle.antt =====
-- What a connection leaves behind.
use text.Mathlib.TextPositions.{eq_refl}
use realtime_notification_pl.Prelude.{ℕ, ◌<◌, String, ◌≡◌, ◌∙◌, Option, none, some, List, arith}
use realtime_notification_pl.Prelude.Dict.{lookup-insert, lookup-erase}
use realtime_notification_pl.Platform.{Platform}
use realtime_notification_pl.Keys.Distinct.{keys}
use realtime_notification_pl.World.{World, Socket, ok, calm, ◌>>=◌}
use realtime_notification_pl.Presence.Store.{get_status}
use realtime_notification_pl.Presence.Manager.{mark_online, mark_offline}
use realtime_notification_pl.Pubsub.InstanceRegistry.{register, unregister, lookup}
use realtime_notification_pl.Websocket.ConnectionManager.{add, remove, get_socket}
use realtime_notification_pl.Websocket.Heartbeat.{HeartbeatHandler}
use realtime_notification_pl.Websocket.Heartbeat.Expiry.{IsLost, beats, beats_restore_nothing}
use realtime_notification_pl.Websocket.Gateway.{Gateway, connect, clean_up}

module _ ⦃p : Platform⦄ where
  -- how the services and this instance see a user
  pub record Seen (u : String) (socket : Option Socket) (owner : Option String) (status : String)
      (w : World) : Type 0 where
    pub held : get_socket u w ≡ socket
    pub owned : (lookup u (calm w)).0 ≡ ok owner
    pub present : (get_status u (calm w)).0 ≡ ok status

  module _ (self : Gateway) (u : String) where
    -- With Redis answering and positive lifetimes, a user who has connected has the socket, is
    -- owned by this instance and is online.
    pub connect-Seen :
        (socket : Socket) (w : World)
        → 0 < self.presence_ttl_seconds
        → 0 < self.presence_manager.ttl_seconds
        → Seen u (some socket) (some self.instance_id) "online" (connect self socket u (calm w)).1
    unfolding connect add register mark_online get_socket lookup get_status ◌>>=◌
    connect-Seen socket w pos pos' = record {
      held = lookup-insert u u socket w.connections ∙ rw (eq_refl u);
      owned = simp (p.redis.peek-set, p.redis.peek-set_ex, keys, eq_refl, pos, pos') (ground arith);
      present =
          simp (p.redis.peek-set, p.redis.peek-set_ex, keys, eq_refl, pos, pos') (ground arith);
    }

  -- With Redis answering, after the cleanup the user has no socket here, no owner, and is offline.
  pub clean_up-Seen : (u : String) (w : World) → Seen u none none "offline" (clean_up u (calm w)).1
  unfolding clean_up remove unregister mark_offline get_socket lookup get_status ◌>>=◌
  clean_up-Seen u w = record {
    held = lookup-erase u u w.connections ∙ rw (eq_refl u);
    owned = simp (p.redis.peek-delete, keys, eq_refl);
    present = simp (p.redis.peek-delete, eq_refl);
  }

  clean_up-IsLost : (u : String) (w : World) → IsLost u (clean_up u (calm w)).1
  unfolding clean_up remove unregister mark_offline ◌>>=◌
  clean_up-IsLost u w = record {
    presence = λ d. simp (p.redis.peek-delete, eq_refl);
    owner = λ d. simp (p.redis.peek-delete, keys, eq_refl);
  }

  -- A user reconnects, to this instance or to another that shares Redis, before the end of the
  -- first connection is noticed, with every call answered and positive lifetimes. The second
  -- connection has made the user online and owned by its instance. When the end of the first is
  -- noticed, its cleanup takes these entries: the user is offline and unowned, and heartbeats of
  -- the live connection change nothing about it.
  pub reconnect_is_forgotten :
      (first second : Gateway) (heartbeats : HeartbeatHandler) (u : String) (old new : Socket)
      (gaps : List ℕ) (w : World)
      → 0 < second.presence_ttl_seconds
      → 0 < second.presence_manager.ttl_seconds
      → 0 < heartbeats.ttl_seconds
      → 0 < heartbeats.presence.ttl_seconds
      → let both = (connect second new u (calm (connect first old u (calm w)).1)).1 in
        let after = beats heartbeats u gaps (clean_up u (calm both)).1 in
        ((get_status u (calm both)).0 ≡ ok "online")
        × ((lookup u (calm both)).0 ≡ ok (some second.instance_id))
        × ((get_status u (calm after)).0 ≡ ok "offline")
        × ((lookup u (calm after)).0 ≡ ok none)
  reconnect_is_forgotten first second heartbeats u old new gaps w owned present pos pos' =
      let once = (connect first old u (calm w)).1 in
      let both = (connect second new u (calm once)).1 in
      let seen = connect-Seen second u new once owned present in
      let (offline, unowned) =
        beats_restore_nothing heartbeats u gaps (clean_up u (calm both)).1 pos pos'
          (clean_up-IsLost u both) in
      (seen.present, seen.owned, offline, unowned)
