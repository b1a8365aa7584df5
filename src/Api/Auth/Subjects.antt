-- ===== src/Api/Auth/Subjects.antt =====
-- The subject of a token, and the spellings of a UUID.
use text.Mathlib.TextPositions.{eq_refl}
use realtime_notification_pl.Prelude.{
  ◌<◌, String, ◌≡◌, ◌≢◌, refl, ◌∙◌, false, Option, none, some, inl, inr, arith, Bool-cases,
}
use realtime_notification_pl.Prelude.Dict.{lookup-insert}
use realtime_notification_pl.Json.{Json, Fields, get}
use realtime_notification_pl.Postgres.{Uuid, Notification, NewNotification}
use realtime_notification_pl.Platform.{Platform}
use realtime_notification_pl.Keys.{registry_key}
use realtime_notification_pl.Keys.Distinct.{registry_key-injective, eq_false, keys}
use realtime_notification_pl.World.{World, Socket, ok, err, http, calm, ◌>>=◌}
use realtime_notification_pl.Presence.Manager.{mark_online}
use realtime_notification_pl.Pubsub.InstanceRegistry.{register}
use realtime_notification_pl.Websocket.ConnectionManager.{add, get_socket}
use realtime_notification_pl.Websocket.Gateway.{Gateway, connect}
use realtime_notification_pl.Api.Notifications.{deliver_live}
use realtime_notification_pl.Api.Notifications.Outcomes.{deliver_live-Unreachable}
use realtime_notification_pl.Api.Auth.{truthy, if_uuid, subject, checked, decode_user_id}
use realtime_notification_pl.Websocket.MessageRouter.{label}

module _ ⦃p : Platform⦄ where
  if_uuid-parses :
      (text s : String) (o : Option Uuid) (w : World)
      → p.uuid_parse text ≡ o
      → (if_uuid text o w).0 ≡ ok s
      → (v : Uuid) × (p.uuid_parse s ≡ some v)
  unfolding ◌>>=◌
  if_uuid-parses text s none w e h = cc
  if_uuid-parses text s (some v) w e h = let same : text ≡ s = ground arith in (v, rw (← same) e)

  subject-parses :
      (j : Option Json) (s : String) (w : World)
      → (subject j w).0 ≡ ok s
      → (v : Uuid) × (p.uuid_parse s ≡ some v)
  unfolding ◌>>=◌
  subject-parses none s w h = cc
  subject-parses (some j) s w h = elim (Bool-cases (truthy j)) [
    | inl e ↦ if_uuid-parses (label j) s (p.uuid_parse (label j)) w refl (rw e at h)
    | inr e ↦ absurd (
        let refused : err (http 401 "Token missing subject claim") ≡ ok s = rw e at h in cc refused)
  ]

  checked-parses :
      (claims : Option Fields) (s : String) (w : World)
      → (checked claims w).0 ≡ ok s
      → (v : Uuid) × (p.uuid_parse s ≡ some v)
  unfolding ◌>>=◌
  checked-parses none s w h = cc
  checked-parses (some claims) s w h = subject-parses (get "sub" claims) s w h

  -- A user id that a token yields spells a UUID.
  pub decode_user_id-parses :
      (token s : String) (w : World)
      → (decode_user_id token w).0 ≡ ok s
      → (v : Uuid) × (p.uuid_parse s ≡ some v)
  unfolding decode_user_id
  decode_user_id-parses token s w h = checked-parses (p.jwt_decode token) s w h

  -- A user connects under a spelling of their UUID other than the canonical one, under which
  -- nobody is registered. With every call answered and positive lifetimes, the user holds a
  -- socket, and yet no notification is published to it: the live delivery looks under the
  -- canonical spelling.
  pub other_spelling_is_unreachable :
      (self : Gateway) (socket : Socket) (s : String) (body : NewNotification) (row : Notification)
      (w : World)
      → 0 < self.presence_ttl_seconds
      → 0 < self.presence_manager.ttl_seconds
      → p.uuid_parse s ≡ some body.user_id
      → s ≢ p.uuid_text body.user_id
      → p.redis.peek w.cache 0 (registry_key (p.uuid_text body.user_id)) ≡ none
      → let connected = (connect self socket s (calm w)).1 in
        (get_socket s connected ≡ some socket)
        × (deliver_live body row (calm connected) ≡ (ok false, calm connected))
  unfolding connect add register mark_online get_socket ◌>>=◌
  other_spelling_is_unreachable self socket s body row w pos pos' reads other absent =
      let apart =
        eq_false (registry_key s) (registry_key (p.uuid_text body.user_id))
          (λ e. other (registry_key-injective _ _ e)) in
      (
        lookup-insert s s socket w.connections ∙ rw (eq_refl s),
        deliver_live-Unreachable body row (connect self socket s (calm w)).1
            (inl (simp (p.redis.peek-set, p.redis.peek-set_ex, keys, apart, pos, pos') absent)),
      )
