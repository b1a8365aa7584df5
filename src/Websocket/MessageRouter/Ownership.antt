-- ===== src/Websocket/MessageRouter/Ownership.antt =====
-- What the messages of a client can do to the stored notifications.
use realtime_notification_pl.Prelude.{
  ℕ, String, ◌≡◌, refl, Bool, true, false, ◌⊎◌, inl, inr, Option, none, some, if◌then◌else◌,
}
use realtime_notification_pl.Json.{Json, Fields, get}
use realtime_notification_pl.Postgres.{Uuid}
use realtime_notification_pl.Platform.{Platform}
use realtime_notification_pl.World.{World, Result, ok, err, Action, command, modify, pure, ◌>>=◌}
use realtime_notification_pl.World.Keeps.{
  Stored, Outcome, Triple, Keeps, Triple-bind, Keeps-modify, Keeps-pure, Keeps-raise, Keeps-call,
  Keeps-bind, Keeps-In, Keeps-gets, Outcome-In, any_Outcome, keeps_rules,
}
use realtime_notification_pl.Core.RateLimiter.{RateLimiter, allow}
use realtime_notification_pl.Core.RateLimiter.Frame.{allow-Keeps_always}
use realtime_notification_pl.Presence.Store.{touch_last_seen, set_online, set_away, refresh}
use realtime_notification_pl.Presence.Manager.{PresenceManager, mark_online, mark_away, heartbeat}
use realtime_notification_pl.Pubsub.InstanceRegistry.{refresh as renew}
use realtime_notification_pl.Db.Repository.{get_session, mark_read}
use realtime_notification_pl.Db.Repository.Reads.{
  Untouched, Marked, Start, Either, Told, mark_read-Told,
}
use realtime_notification_pl.Websocket.Heartbeat.{HeartbeatHandler, handle}
use realtime_notification_pl.Websocket.MessageRouter.{
  MessageRouter, type_of, count_receipt, on_read_receipt, on_heartbeat, update_presence,
  on_presence_update, acknowledge, receipt_field, on_receipt, status_field, dispatch, rescue,
  limited, route_dict, route,
}

module _ ⦃p : Platform⦄ where
  open p use {postgres}

  -- At most one notification was marked, and it is the user's.
  abbrev pub Reached : Uuid → postgres.State → postgres.State → Type 0
  Reached v a b = Untouched a b ⊎ ((n : Uuid) × (t : ℕ) × Marked n v t a b)

  module _ (v : Uuid) (d : postgres.State) where
    -- nothing is committed yet, or what the user may do
    abbrev At : Stored
    At s db ses = db ≡ d

    abbrev Reach : Stored
    Reach s db ses = Reached v d db

    start : {db : postgres.State} → db ≡ d → Reached v d db
    start e = inl (rw e (record { rows = refl; receipts = refl }))

    abbrev Reaches : {A : Type 0} → Action A → Type 0
    Reaches m = Triple Reach At (λ _. Reach) m

    module _ {A : Type 0} where
      widen : (r : Result A) (w : World) → Outcome At (λ _. At) r w → Outcome Reach (λ _. At) r w
      widen (ok a) w h = h
      widen (err e) w h = start h

      -- an action that leaves the tables alone, before others
      still_first : (m : Action A) → Keeps At m → Triple Reach At (λ _. At) m
      still_first m k = record { at = λ w h. widen (m w).0 (m w).1 (k.at w h) }

      -- or as the last one
      still : (m : Action A) → Keeps At m → Reaches m
      still m k = record {
        at = λ w h. any_Outcome Reach (m w).0 (m w).1 (start (Keeps-In At m k w h));
      }

      Reaches-if :
          (b : Bool) (m n : Action A) → Reaches m → Reaches n → Reaches (if b then m else n)
      Reaches-if true m n km kn = km
      Reaches-if false m n km kn = kn

      -- the tables are no part of a command to Redis
      command-At : (f : p.redis.State → A × p.redis.State) → Keeps At (command f)
      unfolding command
      command-At f = Keeps-call At _ (λ w h. h)

    ruleset at_rules = (keeps_rules, command-At)

    allow-At : (self : RateLimiter) (id : String) → Keeps At (allow self id)
    allow-At self id = allow-Keeps_always At self id command-At

    limited-At : Keeps At limited
    unfolding limited
    limited-At = Keeps-bind At _ _ (Keeps-modify At _ (λ w h. h)) (λ _. Keeps-pure At _)

    handle-At : (self : HeartbeatHandler) (u : String) → Keeps At (handle self u)
    unfolding handle heartbeat refresh renew touch_last_seen
    handle-At self u = search at_rules

    mark_online-At : (self : PresenceManager) (u : String) → Keeps At (mark_online self u)
    unfolding mark_online set_online touch_last_seen
    mark_online-At self u = search at_rules

    mark_away-At : (self : PresenceManager) (u : String) → Keeps At (mark_away self u)
    unfolding mark_away set_away touch_last_seen
    mark_away-At self u = search at_rules

    -- the session of `mark_read` begins with what is committed
    session-Start : Triple Reach At (λ _. Start d) get_session
    unfolding modify
    session-Start = record { at = λ w h. (h, h) }

    told :
        (n : Uuid) (t : ℕ) (r : Result Bool) (w : World)
        → Outcome (Either n v t d) (Told n v t d) r w
        → Outcome Reach (λ _. Reach) r w
    told n t (ok true) w h = inr (n, t, h)
    told n t (ok false) w h = inl (h.0)
    told n t (err e) w (inl h) = inl h
    told n t (err e) w (inr h) = inr (n, t, h)

    mark_read-Reach : (n : Uuid) (t : ℕ) → Triple Reach (Start d) (λ _. Reach) (mark_read n v t)
    mark_read-Reach n t = record { at = λ w h. told n t _ _ ((mark_read-Told n v t d).at w h) }

    after_pure :
        {A B : Type 0} (P : Stored) (a : A) (f : A → Action B)
        → Triple Reach P (λ _. Reach) (f a)
        → Triple Reach P (λ _. Reach) (pure a >>= f)
    unfolding ◌>>=◌
    after_pure P a f k = record { at = k.at }

    count_receipt-Keeps : (b : Bool) → Keeps Reach (count_receipt b)
    count_receipt-Keeps true = Keeps-modify Reach _ (λ w h. h)
    count_receipt-Keeps false = Keeps-pure Reach _

    module _ (u : String) (same : p.uuid_parse u ≡ some v) where
      on_read_receipt-Reaches : (n : Uuid) (t : ℕ) → Reaches (on_read_receipt n u t)
      unfolding on_read_receipt
      on_read_receipt-Reaches n t = rw same (
          Triple-bind Reach At (λ _. Start d) (λ _. Reach) get_session _ session-Start
            (λ _. after_pure (Start d) v _ (
              Triple-bind Reach (Start d) (λ _. Reach) (λ _. Reach) _ _ (mark_read-Reach n t)
                count_receipt-Keeps)))

      acknowledge-Reaches : (o : Option Uuid) → Reaches (acknowledge u o)
      acknowledge-Reaches none = still _ (Keeps-raise At _)
      acknowledge-Reaches (some n) =
          Triple-bind Reach At (λ _. At) (λ _. Reach) _ _ (still_first _ (Keeps-gets At _))
            (λ now.
              Triple-bind Reach At (λ _. Reach) (λ _. Reach) _ _ (on_read_receipt-Reaches n now)
                (λ _. Keeps-pure Reach none))

      presence-Reaches :
          (self : MessageRouter) (o : Option Bool) → Reaches (update_presence self u o)
      presence-Reaches self none = still _ (Keeps-raise At _)
      presence-Reaches self (some true) =
          still _ (Keeps-bind At _ _ (mark_online-At _ u) (λ _. Keeps-pure At none))
      presence-Reaches self (some false) =
          still _ (Keeps-bind At _ _ (mark_away-At _ u) (λ _. Keeps-pure At none))

      dispatch-Reaches :
          (self : MessageRouter) (type : Json) (raw : Fields) → Reaches (dispatch self u type raw)
      unfolding dispatch on_heartbeat on_presence_update on_receipt
      dispatch-Reaches self type raw =
          Reaches-if _ _ _ (still _ (Keeps-bind At _ _ (handle-At _ u) (λ _. Keeps-pure At none))) (
            Reaches-if _ _ _ (presence-Reaches self (status_field (get "status" raw))) (
              Reaches-if _ _ _ (acknowledge-Reaches (receipt_field (get "notification_id" raw)))
                (still _ (Keeps-pure At _))))

      rescue-Reaches : (m : Action (Option Json)) → Reaches m → Reaches (rescue m)
      rescue-Reaches m k = record {
        at = λ w h. any_Outcome Reach _ _ (Outcome-In Reach (m w).0 (m w).1 (k.at w h));
      }

      route_dict-Reaches :
          (self : MessageRouter) (id : String) (raw : Fields) → Reaches (route_dict self u id raw)
      unfolding route_dict limited
      route_dict-Reaches self id raw =
          Triple-bind Reach At (λ _. At) (λ _. Reach) _ _
            (still_first _ (Keeps-modify At _ (λ w h. h)))
            (λ _.
              Triple-bind Reach At (λ _. At) (λ _. Reach) _ _ (still_first _ (allow-At _ id))
                (λ b.
                  Reaches-if b _ _
                    (rescue-Reaches _ (dispatch-Reaches self (type_of (get "type" raw)) raw))
                    (still _ limited-At)))

      route-Reaches :
          (self : MessageRouter) (id : String) (raw : Json) → Reaches (route self u id raw)
      unfolding route
      route-Reaches self id (Json.obj raw) = route_dict-Reaches self id raw
      route-Reaches self id _ = still _ (Keeps-raise At _)

  -- Whatever a client sends under a user id that spells a UUID, and whatever calls fail, handling
  -- the message changes nothing in the committed tables, or marks one notification of that very
  -- user as read and adds its receipt.
  pub route-Reached :
      (self : MessageRouter) (u id : String) (v : Uuid) (raw : Json) (w : World)
      → p.uuid_parse u ≡ some v
      → Reached v w.database (route self u id raw w).1.database
  route-Reached self u id v raw w same =
      Outcome-In (Reach v w.database) (route self u id raw w).0 (route self u id raw w).1
        ((route-Reaches v w.database u same self id raw).at w refl)
