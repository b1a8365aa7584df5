-- ===== src/Api/Shutdown/Forgotten.antt =====
-- The users of an instance that shuts down.
use realtime_notification_pl.Prelude.{
  String, ◌≡◌, refl, ◌∙◌, true, none, List, [], ◌∷◌, arith, str_eq, eq_iff, inl, inr, Bool-cases,
}
use text.Mathlib.TextPositions.{eq_refl}
use realtime_notification_pl.Prelude.Dict.{listed, listed-keys, keys}
use realtime_notification_pl.Platform.{Platform}
use realtime_notification_pl.Keys.{registry_key, presence_key}
use realtime_notification_pl.Keys.Distinct.{keys as key_rules}
use realtime_notification_pl.World.{World, ok, calm, ◌>>=◌}
use realtime_notification_pl.Presence.Store.{clear, get_status}
use realtime_notification_pl.Presence.Manager.{mark_offline}
use realtime_notification_pl.Pubsub.InstanceRegistry.{unregister, lookup}
use realtime_notification_pl.Websocket.ConnectionManager.{is_connected, close_all}
use realtime_notification_pl.Websocket.ConnectionManager.Closing.{
  calm-id, close_all-empty, close_all-calm,
}
use realtime_notification_pl.Websocket.Heartbeat.Expiry.{IsLost}
use realtime_notification_pl.Api.Shutdown.{forget_each, shutdown}

module _ ⦃p : Platform⦄ where
  -- without the entries of one user
  abbrev forgotten : String → World → World
  forgotten v w = record w {
    cache = p.redis.delete (presence_key v) (p.redis.delete (registry_key v) w.cache);
  }

  forget-IsLost : (u v : String) (w : World) → IsLost u w → IsLost u (forgotten v w)
  forget-IsLost u v w h = record {
    presence = λ d. simp (p.redis.peek-delete, h.presence) (ground arith);
    owner = λ d. simp (p.redis.peek-delete, h.owner) (ground arith);
  }

  forget-here : (u v : String) (w : World) → str_eq v u ≡ true → IsLost u (forgotten v w)
  forget-here u v w h =
      let same = (eq_iff v u).0 h in
      record {
        presence = λ d. rw same (simp (p.redis.peek-delete, eq_refl) (ground arith));
        owner = λ d. rw same (simp (p.redis.peek-delete, eq_refl, key_rules) (ground arith));
      }

  pub forget_each_lem :
      (us : List String) (w : World)
      → let (r, w') = forget_each us (calm w) in (r ≡ ok tt) × (w'.connections ≡ w.connections)
  unfolding forget_each unregister mark_offline clear ◌>>=◌
  forget_each_lem [] w = (refl, refl)
  forget_each_lem (v ∷ vs) w = forget_each_lem vs (forgotten v w)

  forget_each-calm : (us : List String) (w : World) → (forget_each us (calm w)).1.schedule ≡ []
  unfolding forget_each unregister mark_offline clear ◌>>=◌
  forget_each-calm [] w = refl
  forget_each-calm (v ∷ vs) w = forget_each-calm vs (forgotten v w)

  -- with every call answered
  pub shutdown_lem :
      (w : World)
      → let (r, w') = shutdown (calm w) in (r ≡ ok tt) × (w'.connections ≡ []) × (w'.schedule ≡ [])
  unfolding shutdown ◌>>=◌
  shutdown_lem w =
      let (closed, empty, gauge) = close_all-empty 1001 (calm w) in
      let w1 = (close_all 1001 (calm w)).1 in
      let same = calm-id w1 (close_all-calm 1001 w) in
      let (r, kept) = forget_each_lem (keys w.connections) w1 in
      rw (closed, ← same) (r, kept ∙ empty, forget_each-calm (keys w.connections) w1)

  forget_each-keeps :
      (u : String) (us : List String) (w : World)
      → IsLost u w
      → IsLost u (forget_each us (calm w)).1
  unfolding forget_each unregister mark_offline clear ◌>>=◌
  forget_each-keeps u [] w h = record { presence = h.presence; owner = h.owner }
  forget_each-keeps u (v ∷ vs) w h = forget_each-keeps u vs (forgotten v w) (forget-IsLost u v w h)

  forget_each-IsLost :
      (u : String) (us : List String) (w : World)
      → listed u us ≡ true
      → IsLost u (forget_each us (calm w)).1
  unfolding forget_each unregister mark_offline clear ◌>>=◌
  forget_each-IsLost u [] w h = absurd (ground (arith, h))
  forget_each-IsLost u (v ∷ vs) w h = elim (Bool-cases (str_eq v u)) [
    | inl e ↦ forget_each-keeps u vs (forgotten v w) (forget-here u v w e)
    | inr e ↦ forget_each-IsLost u vs (forgotten v w) (rw e at h)
  ]

  -- When an instance shuts down with every call answered, it raises nothing and holds no
  -- connection any more, and each user that was connected to it is offline and unowned.
  pub shutdown_forgets :
      (u : String) (w : World)
      → is_connected u w ≡ true
      → let (r, w') = shutdown (calm w) in
        (r ≡ ok tt)
        × (w'.connections ≡ [])
        × ((get_status u (calm w')).0 ≡ ok "offline")
        × ((lookup u (calm w')).0 ≡ ok none)
  unfolding shutdown is_connected get_status lookup ◌>>=◌
  shutdown_forgets u w h =
      let (closed, empty, gauge) = close_all-empty 1001 (calm w) in
      let w1 = (close_all 1001 (calm w)).1 in
      let same = calm-id w1 (close_all-calm 1001 w) in
      let (r, kept) = forget_each_lem (keys w.connections) w1 in
      let lost = forget_each-IsLost u (keys w.connections) w1 (listed-keys u w.connections h) in
      rw (closed, ← same) (r, kept ∙ empty, rw (lost.presence 0) refl, rw (lost.owner 0) refl)
