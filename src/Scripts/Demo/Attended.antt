-- ===== src/Scripts/Demo/Attended.antt =====
-- A connection whose client sends its heartbeats, as scripts/ws_client_demo.py does.
use text.Mathlib.TextPositions.{eq_refl}
use mathlib.Core.Path.{subst}
use realtime_notification_pl.Prelude.{
  ℕ, zero, suc, ◌+◌, ◌≤◌, ◌<◌, String, true, ◌≡◌, refl, ap, ◌∙◌, none, some, [], ◌∷◌, arith, ltb,
  leb, if◌then◌else◌,
}
use realtime_notification_pl.Prelude.Dict as Dict
use realtime_notification_pl.World.Quiet.{Within-pure, Within-modify, Within-bind}
use realtime_notification_pl.Websocket.Gateway.Holds.{Held, Held-Keeping, Holds, route-Holds}
use realtime_notification_pl.Redis.{plain}
use realtime_notification_pl.Platform.{Platform}
use realtime_notification_pl.Config.{Settings}
use realtime_notification_pl.App.Wiring.{gateway, message_router, heartbeat_handler, rate_limiter}
use realtime_notification_pl.Keys.{presence_key, registry_key, rate_limit_key}
use realtime_notification_pl.Keys.Distinct.{keys}
use realtime_notification_pl.World.{World, Result, Socket, ok, calm, wait, ◌>>=◌}
use realtime_notification_pl.World.Frame.{calm-eq}
use realtime_notification_pl.Core.RateLimiter.{allow}
use realtime_notification_pl.Core.RateLimiter.Window.{allow_first, allow-calm}
use realtime_notification_pl.Core.RateLimiter.Frame.{allow-SameBut}
use realtime_notification_pl.Presence.Store.{get_status}
use realtime_notification_pl.Presence.Manager.{heartbeat, mark_online}
use realtime_notification_pl.Pubsub.InstanceRegistry.{register, refresh, lookup}
use realtime_notification_pl.Websocket.ConnectionManager.{add, get_socket}
use realtime_notification_pl.Websocket.Heartbeat.{handle}
use realtime_notification_pl.Websocket.MessageRouter.{
  route, route_dict, dispatch, limited, on_heartbeat,
}
use realtime_notification_pl.Websocket.Gateway.{connect}
use realtime_notification_pl.Scripts.Demo.{heartbeat_loop}
use realtime_notification_pl.Websocket.Messages.{heartbeat_message}

module _ ⦃p : Platform⦄ (settings : Settings) (user_id connection_id : String) where
  abbrev pub ttl : ℕ
  ttl = settings.presence_ttl_seconds

  -- both entries of the user were renewed just now, and no window is open at the next heartbeat
  pub record Attended (w : World) : Type 0 where
    pub answering : w.schedule ≡ []
    pub presence :
        (d : ℕ)
        → p.redis.peek w.cache d (presence_key user_id)
          ≡ (if ltb d ttl then some (plain "online") else none)
    pub owner :
        (d : ℕ)
        → p.redis.peek w.cache d (registry_key user_id)
          ≡ (if ltb d ttl then some (plain settings.instance_id) else none)
    pub closed : p.redis.peek w.cache 15 (rate_limit_key connection_id) ≡ none

  pub connect-Attended :
      (socket : Socket) (w : World)
      → 0 < ttl
      → p.redis.peek w.cache 15 (rate_limit_key connection_id) ≡ none
      → Attended (connect (gateway settings) socket user_id (calm w)).1
  unfolding connect add register mark_online ◌>>=◌
  connect-Attended socket w pos h = record {
    answering = refl;
    presence = λ d. simp (p.redis.peek-set, p.redis.peek-set_ex, keys, eq_refl, pos);
    owner = λ d. simp (p.redis.peek-set, p.redis.peek-set_ex, keys, eq_refl, pos);
    closed = simp (p.redis.peek-set, p.redis.peek-set_ex, keys, pos, h);
  }

  -- the handler of a heartbeat, after a call of the limiter
  handle-Attended :
      (w w1 : World)
      → 15 < ttl
      → w1.schedule ≡ []
      → Attended w
      → ((d : ℕ)
          → p.redis.peek w1.cache d (presence_key user_id)
            ≡ p.redis.peek w.cache (15 + d) (presence_key user_id))
      → ((d : ℕ)
          → p.redis.peek w1.cache d (registry_key user_id)
            ≡ p.redis.peek w.cache (15 + d) (registry_key user_id))
      → p.redis.peek w1.cache 15 (rate_limit_key connection_id) ≡ none
      → let (r, w') = handle (heartbeat_handler settings) user_id w1 in (r ≡ ok tt) × Attended w'
  unfolding handle heartbeat refresh ◌>>=◌
  handle-Attended w w1 long answering h presence owner closed =
      let pos : 0 < ttl = omega arith in
      rw answering (
        refl,
        record {
          answering = refl;
          presence = λ d.
              simp (p.redis.peek-expire, p.redis.peek-set, keys, eq_refl, pos, presence, h.presence)
                (ground (arith, long));
          owner = λ d.
              simp (p.redis.peek-expire, p.redis.peek-set, keys, eq_refl, pos, owner, h.owner)
                (ground (arith, long));
          closed = simp (p.redis.peek-expire, p.redis.peek-set, keys, pos, closed);
        },
      )

  -- one round
  route-Attended :
      (w : World)
      → 15 < ttl
      → 0 < settings.rate_limit_messages
      → 0 < settings.rate_limit_window_seconds
      → settings.rate_limit_window_seconds ≤ 15
      → Attended w
      → let (r, w') =
          route
            (message_router settings)
            user_id
            connection_id
            heartbeat_message
            (calm (wait 15 w)) in
        (r ≡ ok none) × Attended w'
  unfolding route route_dict dispatch limited on_heartbeat ◌>>=◌
  route-Attended w long some_left pos short h =
      let w0 : World = record (wait 15 w) {
        metrics = record (w.metrics) {
          ws_messages_received_total = "heartbeat" ∷ w.metrics.ws_messages_received_total;
        };
      } in
      let limiter = rate_limiter settings in
      let (answered, opened) =
        allow_first limiter connection_id w0 pos (p.redis.peek-elapse 15 w.cache 0 _ ∙ h.closed) in
      let granted : leb 1 settings.rate_limit_messages ≡ true = ground (arith, some_left) in
      let w1 = (allow limiter connection_id (calm w0)).1 in
      let (done, attended) =
        handle-Attended w w1 long (allow-calm limiter connection_id w0) h
          (λ d.
            allow-SameBut limiter connection_id w0 pos d (presence_key user_id) (simp keys)
            ∙ p.redis.peek-elapse 15 w.cache d (presence_key user_id))
          (λ d.
            allow-SameBut limiter connection_id w0 pos d (registry_key user_id) (simp keys)
            ∙ p.redis.peek-elapse 15 w.cache d (registry_key user_id))
          (opened 15 ∙ ground (arith, short)) in
      rw (answered, granted, done) (refl, attended)

  abbrev pub Kept : Result Unit × World → Type 0
  Kept (r, w') = (r ≡ ok tt) × Attended w'

  pub heartbeat_loop-Attended :
      (n : ℕ) (w : World)
      → 15 < ttl
      → 0 < settings.rate_limit_messages
      → 0 < settings.rate_limit_window_seconds
      → settings.rate_limit_window_seconds ≤ 15
      → Attended w
      → Kept (heartbeat_loop (message_router settings) user_id connection_id n (calm w))
  unfolding heartbeat_loop ◌>>=◌
  heartbeat_loop-Attended zero w long some_left pos short h =
      (refl, record { answering = refl; presence = h.presence; owner = h.owner; closed = h.closed })
  heartbeat_loop-Attended (suc n) w long some_left pos short h =
      let (routed, attended) = route-Attended w long some_left pos short h in
      let w1 =
        (route (message_router settings) user_id connection_id heartbeat_message
          (calm (wait 15 w))).1 in
      let rest = heartbeat_loop-Attended n w1 long some_left pos short attended in
      rw routed (
        subst (λ v. Kept (heartbeat_loop (message_router settings) user_id connection_id n v))
          (calm-eq w1 attended.answering) rest)

  pub heartbeat_loop-Holds :
      (n : ℕ) → Holds (heartbeat_loop (message_router settings) user_id connection_id n)
  unfolding heartbeat_loop
  heartbeat_loop-Holds zero = Within-pure Held Held-Keeping tt
  heartbeat_loop-Holds (suc n) =
      Within-bind Held Held-Keeping _ _ (Within-modify Held Held-Keeping _ (λ w. refl)) (λ _.
        Within-bind Held Held-Keeping _ _ (route-Holds _ user_id connection_id heartbeat_message)
          (λ _. heartbeat_loop-Holds n))

  pub connect-get_socket :
      (socket : Socket) (w : World)
      → Dict.lookup user_id (connect (gateway settings) socket user_id (calm w)).1.connections
        ≡ some socket
  unfolding connect add register mark_online ◌>>=◌
  connect-get_socket socket w =
      Dict.lookup-insert user_id user_id socket w.connections ∙ rw (eq_refl user_id) refl

  -- A client that sends a heartbeat every 15 seconds, from the moment it is registered, stays
  -- online and owned by its instance, which holds its socket: after any number of heartbeats, for as
  -- long as the lifetime of the entries, and none of them is refused or ends the session. The
  -- lifetime is longer than 15 seconds, the limiter grants at least one message in a window of 1 to 15 seconds and has none
  -- open for the connection when the first heartbeat comes, and every call is answered.
  pub heartbeats_keep_alive :
      (socket : Socket) (w : World) (n d : ℕ)
      → 15 < ttl
      → 0 < settings.rate_limit_messages
      → 0 < settings.rate_limit_window_seconds
      → settings.rate_limit_window_seconds ≤ 15
      → p.redis.peek w.cache 15 (rate_limit_key connection_id) ≡ none
      → d < ttl
      → let w1 = (connect (gateway settings) socket user_id (calm w)).1 in
        let (r, w2) = heartbeat_loop (message_router settings) user_id connection_id n (calm w1) in
        (r ≡ ok tt)
        × ((lookup user_id (calm (wait d w2))).0 ≡ ok (some settings.instance_id))
        × ((get_status user_id (calm (wait d w2))).0 ≡ ok "online")
        × (get_socket user_id w2 ≡ some socket)
  unfolding lookup get_status get_socket ◌>>=◌
  heartbeats_keep_alive socket w n d long some_left pos short fresh soon =
      let start = connect-Attended socket w (omega arith) fresh in
      let w1 = (connect (gateway settings) socket user_id (calm w)).1 in
      let (done, attended) = heartbeat_loop-Attended n w1 long some_left pos short start in
      (
        done,
        rw (p.redis.peek-elapse, attended.owner) (ground (arith, soon)),
        rw (p.redis.peek-elapse, attended.presence) (ground (arith, soon)),
        ap (Dict.lookup user_id) ((heartbeat_loop-Holds n).at (calm w1))
            ∙ connect-get_socket socket w,
      )
