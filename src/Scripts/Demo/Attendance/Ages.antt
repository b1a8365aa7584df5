-- ===== src/Scripts/Demo/Attendance/Ages.antt =====
-- How old the entries of the user and of the instance are in the course of a connection.
use text.Mathlib.TextPositions.{eq_refl}
use mathlib.Core.Path.{subst}
use realtime_notification_pl.Prelude.{
  ℕ, ◌+◌, ◌≤◌, ◌<◌, String, true, ◌≡◌, refl, ap, ◌∙◌, Option, none, some, List, [], ◌∷◌, arith, ltb,
  leb, if◌then◌else◌,
}
use realtime_notification_pl.Prelude.Dict.{lookup, lookup-insert}
use realtime_notification_pl.Redis.{Value, plain}
use realtime_notification_pl.Platform.{Platform}
use realtime_notification_pl.Config.{Settings}
use realtime_notification_pl.App.Wiring.{
  gateway, message_router, heartbeat_handler, rate_limiter, liveness_loop,
}
use realtime_notification_pl.Keys.{registry_key, liveness_key, rate_limit_key}
use realtime_notification_pl.Keys.Distinct.{keys}
use realtime_notification_pl.World.{World, Result, Socket, ok, command, calm, wait, ◌>>=◌}
use realtime_notification_pl.World.Frame.{calm-eq}
use realtime_notification_pl.World.Quiet.{Within-pure, Within-modify, Within-call, Within-bind}
use realtime_notification_pl.Core.RateLimiter.{allow}
use realtime_notification_pl.Core.RateLimiter.Window.{allow_first, allow-calm}
use realtime_notification_pl.Core.RateLimiter.Frame.{allow-SameBut}
use realtime_notification_pl.Presence.Manager.{heartbeat, mark_online}
use realtime_notification_pl.Pubsub.InstanceRegistry.{register, refresh, mark_alive}
use realtime_notification_pl.Websocket.ConnectionManager.{add}
use realtime_notification_pl.Websocket.Heartbeat.{handle, start}
use realtime_notification_pl.Websocket.Messages.{heartbeat_message}
use realtime_notification_pl.Websocket.MessageRouter.{
  route, route_dict, dispatch, limited, on_heartbeat,
}
use realtime_notification_pl.Websocket.Gateway.{connect}
use realtime_notification_pl.Websocket.Gateway.Holds.{Held, Held-Keeping, Holds, route-Holds}
use realtime_notification_pl.Scripts.Demo.Attendance.{
  Event, pause, beat, refreshed, IsTimely, timely_positive, renew_liveness, attend, attendance,
}

module _ ⦃p : Platform⦄ (settings : Settings) (user_id connection_id : String) where
  abbrev owner_at : ℕ → Option Value
  owner_at t =
      if ltb t settings.presence_ttl_seconds then some (plain settings.instance_id) else none

  abbrev alive_at : ℕ → Option Value
  alive_at t = if ltb t settings.instance_liveness_ttl_seconds then some (plain "1") else none

  record Aged (a b : ℕ) (w : World) : Type 0 where
    owner : (d : ℕ) → p.redis.peek w.cache d (registry_key user_id) ≡ owner_at (a + d)
    alive : (d : ℕ) → p.redis.peek w.cache d (liveness_key settings.instance_id) ≡ alive_at (b + d)
    closed :
        (d : ℕ)
        → settings.rate_limit_window_seconds ≤ a + d
        → p.redis.peek w.cache d (rate_limit_key connection_id) ≡ none

  pause-Aged : (a b n : ℕ) (w : World) → Aged a b w → Aged (a + n) (b + n) (wait n w)
  pause-Aged a b n w h = record {
    owner = λ d. p.redis.peek-elapse n w.cache d _ ∙ h.owner (n + d) ∙ ap owner_at (omega arith);
    alive = λ d. p.redis.peek-elapse n w.cache d _ ∙ h.alive (n + d) ∙ ap alive_at (omega arith);
    closed = λ d le. p.redis.peek-elapse n w.cache d _ ∙ h.closed (n + d) (omega (arith, le));
  }

  refreshed-Aged :
      (a b : ℕ) (w : World)
      → 0 < settings.instance_liveness_ttl_seconds
      → Aged a b w
      → let (r, w') = renew_liveness settings user_id connection_id (calm w) in
        (r ≡ ok tt) × Aged a 0 w'
  unfolding mark_alive ◌>>=◌
  refreshed-Aged a b w pos h = (
    refl,
    record {
      owner = λ d. simp (p.redis.peek-set_ex, keys, pos, h.owner);
      alive = λ d. simp (p.redis.peek-set_ex, eq_refl, pos) (ground arith);
      closed = λ d le. simp (p.redis.peek-set_ex, keys, pos, h.closed d le);
    },
  )

  -- the handler of a heartbeat, after a call of the limiter
  handle-Aged :
      (a b : ℕ) (w w1 : World)
      → a < settings.presence_ttl_seconds
      → w1.schedule ≡ []
      → Aged a b w
      → ((d : ℕ)
          → p.redis.peek w1.cache d (registry_key user_id)
            ≡ p.redis.peek w.cache d (registry_key user_id))
      → ((d : ℕ)
          → p.redis.peek w1.cache d (liveness_key settings.instance_id)
            ≡ p.redis.peek w.cache d (liveness_key settings.instance_id))
      → ((d : ℕ)
          → settings.rate_limit_window_seconds ≤ d
          → p.redis.peek w1.cache d (rate_limit_key connection_id) ≡ none)
      → let (r, w') = handle (heartbeat_handler settings) user_id w1 in
        (r ≡ ok tt) × (w'.schedule ≡ []) × Aged 0 b w'
  unfolding handle heartbeat refresh ◌>>=◌
  handle-Aged a b w w1 soon answering h owner alive closed =
      let pos : 0 < settings.presence_ttl_seconds = omega (arith, soon) in
      rw answering (
        refl,
        refl,
        record {
          owner = λ d.
              simp (p.redis.peek-expire, p.redis.peek-set, keys, eq_refl, pos, owner, h.owner)
                (ground (arith, soon));
          alive = λ d. simp (p.redis.peek-expire, p.redis.peek-set, keys, pos, alive, h.alive);
          closed = λ d le.
              simp (p.redis.peek-expire, p.redis.peek-set, keys, pos, closed d (omega (arith, le)));
        },
      )

  beat-Aged :
      (a b : ℕ) (w : World)
      → 0 < settings.rate_limit_messages
      → 0 < settings.rate_limit_window_seconds
      → settings.rate_limit_window_seconds ≤ a
      → a < settings.presence_ttl_seconds
      → Aged a b w
      → let (r, w') =
          route (message_router settings) user_id connection_id heartbeat_message (calm w) in
        (r ≡ ok none) × (w'.schedule ≡ []) × Aged 0 b w'
  unfolding route route_dict dispatch limited on_heartbeat ◌>>=◌
  beat-Aged a b w some_left window opening soon h =
      let w0 : World = record w {
        metrics = record (w.metrics) {
          ws_messages_received_total = "heartbeat" ∷ w.metrics.ws_messages_received_total;
        };
      } in
      let limiter = rate_limiter settings in
      let (answered, opened) =
        allow_first limiter connection_id w0 window (h.closed 0 (omega (arith, opening))) in
      let granted : leb 1 settings.rate_limit_messages ≡ true = ground (arith, some_left) in
      let same = allow-SameBut limiter connection_id w0 window in
      let w1 = (allow limiter connection_id (calm w0)).1 in
      let (done, answering, aged) =
        handle-Aged a b w w1 soon (allow-calm limiter connection_id w0) h
          (λ d. same d (registry_key user_id) (simp keys))
          (λ d. same d (liveness_key settings.instance_id) (simp keys))
          (λ d le. opened d ∙ ground (arith, le)) in
      rw (answered, granted, done) (refl, answering, aged)

  -- the user's entry and the instance's key, now
  pub record Known (w : World) : Type 0 where
    pub owner : p.redis.peek w.cache 0 (registry_key user_id) ≡ some (plain settings.instance_id)
    pub alive : p.redis.peek w.cache 0 (liveness_key settings.instance_id) ≡ some (plain "1")

  abbrev pub Kept : Result Unit × World → Type 0
  Kept (r, w') = (r ≡ ok tt) × Known w'

  attend-Kept :
      (es : List Event) (a b : ℕ) (w : World)
      → 0 < settings.rate_limit_messages
      → 0 < settings.rate_limit_window_seconds
      → IsTimely settings a b es
      → Aged a b w
      → Kept (attend settings user_id connection_id es (calm w))
  unfolding attend mark_alive ◌>>=◌
  attend-Kept [] a b w some_left window timely h = (
    refl,
    record {
      owner = h.owner 0 ∙ ground (arith, timely.0);
      alive = h.alive 0 ∙ ground (arith, timely.1);
    },
  )
  attend-Kept (pause n ∷ es) a b w some_left window timely h =
      attend-Kept es (a + n) (b + n) (wait n w) some_left window timely (pause-Aged a b n w h)
  attend-Kept (beat ∷ es) a b w some_left window timely h =
      let (routed, answering, aged) = beat-Aged a b w some_left window timely.0 timely.1 h in
      let w1 =
        (route (message_router settings) user_id connection_id heartbeat_message (calm w)).1 in
      rw routed (
        subst (λ v. Kept (attend settings user_id connection_id es v)) (calm-eq w1 answering)
          (attend-Kept es 0 b w1 some_left window timely.2 aged))
  attend-Kept (refreshed ∷ es) a b w some_left window timely h =
      let (done, aged) = refreshed-Aged a b w (timely_positive settings a 0 es timely).1 h in
      rw done (
        attend-Kept es a 0 (renew_liveness settings user_id connection_id (calm w)).1 some_left
          window timely aged)

  attend-Holds : (es : List Event) → Holds (attend settings user_id connection_id es)
  unfolding attend mark_alive command
  attend-Holds [] = Within-pure Held Held-Keeping tt
  attend-Holds (pause n ∷ es) =
      Within-bind Held Held-Keeping _ _ (Within-modify Held Held-Keeping _ (λ w. refl))
        (λ _. attend-Holds es)
  attend-Holds (beat ∷ es) =
      Within-bind Held Held-Keeping _ _ (route-Holds _ user_id connection_id heartbeat_message)
        (λ _. attend-Holds es)
  attend-Holds (refreshed ∷ es) =
      Within-bind Held Held-Keeping _ _ (Within-call Held Held-Keeping _ (λ w. refl))
        (λ _. attend-Holds es)

  connect-Aged :
      (socket : Socket) (w : World)
      → 0 < settings.presence_ttl_seconds
      → 0 < settings.instance_liveness_ttl_seconds
      → ((d : ℕ) → p.redis.peek w.cache d (rate_limit_key connection_id) ≡ none)
      → Aged 0 0
          (connect (gateway settings) socket user_id (start (liveness_loop settings) (calm w)).1).1
  unfolding start mark_alive connect add register mark_online ◌>>=◌
  connect-Aged socket w pos pos' fresh = record {
    owner =
        λ d. simp (p.redis.peek-set, p.redis.peek-set_ex, keys, eq_refl, pos, pos') (ground arith);
    alive =
        λ d. simp (p.redis.peek-set, p.redis.peek-set_ex, keys, eq_refl, pos, pos') (ground arith);
    closed = λ d le. simp (p.redis.peek-set, p.redis.peek-set_ex, keys, pos, pos', fresh);
  }

  -- With every call answered and a timely course, the user is owned by the instance and the instance
  -- is alive at its end.
  pub attendance-Kept :
      (socket : Socket) (es : List Event) (w : World)
      → 0 < settings.rate_limit_messages
      → 0 < settings.rate_limit_window_seconds
      → ((d : ℕ) → p.redis.peek w.cache d (rate_limit_key connection_id) ≡ none)
      → IsTimely settings 0 0 es
      → Kept (attendance settings user_id connection_id socket es (calm w))
  unfolding attendance start mark_alive connect add register mark_online ◌>>=◌
  attendance-Kept socket es w some_left window fresh timely =
      let (pos, pos') = timely_positive settings 0 0 es timely in
      attend-Kept es 0 0
        (connect (gateway settings) socket user_id (start (liveness_loop settings) (calm w)).1).1
        some_left window timely (connect-Aged socket w pos pos' fresh)

  pub attendance-connections :
      (socket : Socket) (es : List Event) (w : World)
      → lookup user_id (attendance settings user_id connection_id socket es (calm w)).1.connections
        ≡ some socket
  unfolding attendance start mark_alive connect add register mark_online ◌>>=◌
  attendance-connections socket es w =
      ap (lookup user_id) (
        (attend-Holds es).at
          (connect (gateway settings) socket user_id (start (liveness_loop settings) (calm w)).1).1)
      ∙ lookup-insert user_id user_id socket w.connections
      ∙ rw (eq_refl user_id) refl
