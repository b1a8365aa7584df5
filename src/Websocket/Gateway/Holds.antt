-- ===== src/Websocket/Gateway/Holds.antt =====
-- What the calls of a session leave alone: the table of connections.
use realtime_notification_pl.Prelude.{
  ℕ, String, ◌≡◌, refl, ◌∙◌, Bool, true, false, Option, none, some, List, [], ◌∷◌, if◌then◌else◌,
}
use realtime_notification_pl.Json.{Json, Fields}
use realtime_notification_pl.Postgres.{Uuid}
use realtime_notification_pl.Platform.{Platform}
use realtime_notification_pl.World.{
  World, Error, Socket, Action, pure, raise, gets, call, command, modify, ◌>>=◌, ◌>>◌,
}
use realtime_notification_pl.World.Quiet.{
  Keeping, Within, Within-pure, Within-raise, Within-gets, Within-modify, Within-call, Within-bind,
  Within-if,
}
use realtime_notification_pl.Core.RateLimiter.{RateLimiter, allow}
use realtime_notification_pl.Core.RateLimiter.Frame.{allow-Within}
use realtime_notification_pl.Presence.Store.{touch_last_seen, set_online, set_away, refresh, clear}
use realtime_notification_pl.Presence.Manager.{mark_online, mark_away, heartbeat, mark_offline}
use realtime_notification_pl.Pubsub.InstanceRegistry.{register, unregister, refresh as renew}
use realtime_notification_pl.Db.Repository.{mark_read, get_unread_backlog}
use realtime_notification_pl.Websocket.Heartbeat.{HeartbeatHandler, handle}
use realtime_notification_pl.Websocket.ConnectionManager.{transmit}
use realtime_notification_pl.Websocket.MessageRouter.{
  MessageRouter, count_receipt, on_read_receipt, on_heartbeat, update_presence, on_presence_update,
  acknowledge, on_receipt, dispatch, rescue, limited, route_dict, route, parsed_user,
}
use realtime_notification_pl.Websocket.Gateway.{
  Gateway, Inbound, frame, garbled, binary, send_backlog, reply, receive_loop, session_body,
}

module _ ⦃p : Platform⦄ where
  abbrev pub Held : World → World → Type 0
  Held w w' = w'.connections ≡ w.connections

  pub Held-Keeping : Keeping Held
  Held-Keeping = record {
    same = λ w. refl;
    and_then = λ w w' w'' h k. k ∙ h;
    later = λ fs w w' h. h;
  }

  abbrev pub Holds : {A : Type 0} → Action A → Type 0
  Holds m = Within Held m

  module _ {A : Type 0} where
    pure-Holds : (a : A) → Holds (pure a)
    pure-Holds a = Within-pure Held Held-Keeping a

    raise-Holds : (e : Error) → Holds (raise {A = A} e)
    raise-Holds e = Within-raise Held Held-Keeping e

    gets-Holds : (f : World → A) → Holds (gets f)
    gets-Holds f = Within-gets Held Held-Keeping f

    command-Holds : (f : p.redis.State → A × p.redis.State) → Holds (command f)
    unfolding command
    command-Holds f = Within-call Held Held-Keeping _ (λ w. refl)

    execute-Holds :
        (f : World → A × World)
        → ((w : World) → (f w).1.connections ≡ w.connections)
        → Holds (call f)
    execute-Holds f h = Within-call Held Held-Keeping f h

    if-Holds : (b : Bool) (m n : Action A) → Holds m → Holds n → Holds (if b then m else n)
    if-Holds b m n km kn = Within-if Held b m n km kn

  bind-Holds :
      {A B : Type 0} (m : Action A) (f : A → Action B)
      → Holds m
      → ((a : A) → Holds (f a))
      → Holds (m >>= f)
  bind-Holds m f km kf = Within-bind Held Held-Keeping m f km kf

  modify-Holds :
      (f : World → World) → ((w : World) → (f w).connections ≡ w.connections) → Holds (modify f)
  modify-Holds f h = Within-modify Held Held-Keeping f h

  ruleset holds_rules = (
    pure-Holds, raise-Holds, gets-Holds, command-Holds, execute-Holds, if-Holds, bind-Holds,
    modify-Holds, refl,
  )

  handle-Holds : (self : HeartbeatHandler) (u : String) → Holds (handle self u)
  unfolding handle heartbeat refresh renew touch_last_seen
  handle-Holds self u = search holds_rules

  mark_read-Holds : (n u : Uuid) (t : ℕ) → Holds (mark_read n u t)
  unfolding mark_read
  mark_read-Holds n u t = search holds_rules

  count_receipt-Holds : (b : Bool) → Holds (count_receipt b)
  count_receipt-Holds true = search holds_rules
  count_receipt-Holds false = search holds_rules

  parsed_user-Holds : (o : Option Uuid) → Holds (parsed_user o)
  parsed_user-Holds none = search holds_rules
  parsed_user-Holds (some x) = search holds_rules

  acknowledge-Holds : (u : String) (o : Option Uuid) → Holds (acknowledge u o)
  unfolding on_read_receipt
  acknowledge-Holds u none = search holds_rules
  acknowledge-Holds u (some n) =
      search (holds_rules, parsed_user-Holds, mark_read-Holds, count_receipt-Holds) depth 9

  presence-Holds :
      (self : MessageRouter) (u : String) (o : Option Bool) → Holds (update_presence self u o)
  unfolding mark_online mark_away set_online set_away touch_last_seen
  presence-Holds self u none = search holds_rules
  presence-Holds self u (some true) = search holds_rules depth 9
  presence-Holds self u (some false) = search holds_rules depth 9

  dispatch-Holds :
      (self : MessageRouter) (u : String) (type : Json) (raw : Fields)
      → Holds (dispatch self u type raw)
  unfolding dispatch on_heartbeat on_presence_update on_receipt
  dispatch-Holds self u type raw =
      search (holds_rules, handle-Holds, presence-Holds, acknowledge-Holds) depth 9

  rescue-Holds : (m : Action (Option Json)) → Holds m → Holds (rescue m)
  rescue-Holds m k = record { at = k.at }

  allow-Holds : (self : RateLimiter) (id : String) → Holds (allow self id)
  allow-Holds self id = allow-Within Held self id Held-Keeping command-Holds

  route_dict-Holds :
      (self : MessageRouter) (u id : String) (raw : Fields) → Holds (route_dict self u id raw)
  unfolding route_dict limited
  route_dict-Holds self u id raw =
      search (holds_rules, allow-Holds, rescue-Holds, dispatch-Holds) depth 9

  pub route-Holds :
      (self : MessageRouter) (u id : String) (raw : Json) → Holds (route self u id raw)
  unfolding route
  route-Holds self u id (Json.obj raw) = route_dict-Holds self u id raw
  route-Holds self u id _ = search holds_rules

  reply-Holds : (socket : Socket) (o : Option Json) → Holds (reply socket o)
  unfolding transmit
  reply-Holds socket none = search holds_rules
  reply-Holds socket (some message) = search holds_rules

  receive_loop-Holds :
      (self : Gateway) (socket : Socket) (u id : String) (inbound : List Inbound)
      → Holds (receive_loop self socket u id inbound)
  unfolding receive_loop
  receive_loop-Holds self socket u id [] = search holds_rules
  receive_loop-Holds self socket u id (garbled ∷ rest) = search holds_rules
  receive_loop-Holds self socket u id (binary ∷ rest) = search holds_rules
  receive_loop-Holds self socket u id (frame raw ∷ rest) =
      bind-Holds _ _ (route-Holds self.message_router u id raw)
        (λ o. bind-Holds _ _ (reply-Holds socket o) (λ _. receive_loop-Holds self socket u id rest))

  pub session_body-Holds :
      (self : Gateway) (socket : Socket) (u id : String) (inbound : List Inbound)
      → Holds (session_body self socket u id inbound)
  unfolding session_body send_backlog get_unread_backlog transmit
  session_body-Holds self socket u id inbound =
      search (holds_rules, parsed_user-Holds, receive_loop-Holds) depth 9

  pub registered-Holds :
      (self : Gateway) (u : String)
      → Holds (do
        register u self.instance_id self.presence_ttl_seconds
        mark_online self.presence_manager u)
  unfolding register mark_online set_online touch_last_seen
  registered-Holds self u = search holds_rules depth 9

  pub forgotten-Holds : (u : String) → Holds (do unregister u; mark_offline u)
  unfolding unregister mark_offline clear
  forgotten-Holds u = search holds_rules
