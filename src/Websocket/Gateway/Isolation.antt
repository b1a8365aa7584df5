-- ===== src/Websocket/Gateway/Isolation.antt =====
-- A session of one user and the notifications of the others.
use realtime_notification_pl.Prelude.{
  ℕ, String, ◌≡◌, refl, ◌∙◌, ap, Bool, not, inl, inr, Option, none, some, List, [], ◌∷◌, map, arith,
  ◌==◌, ==_iff,
}
use realtime_notification_pl.Prelude.Lists.{filter}
use realtime_notification_pl.Json.{Json}
use realtime_notification_pl.Postgres.{Uuid, Notification}
use realtime_notification_pl.Platform.{Platform}
use realtime_notification_pl.World.{World, Socket}
use realtime_notification_pl.World.Keeps.{
  Stored, Keeps, Keeps-pure, Keeps-raise, Keeps-modify, Keeps-call, Keeps-bind, Keeps-In,
  Keeps-of_In,
}
use realtime_notification_pl.Db.Repository.{get_unread_backlog}
use realtime_notification_pl.Db.Repository.Reads.{mark_row}
use realtime_notification_pl.Websocket.ConnectionManager.{transmit}
use realtime_notification_pl.Websocket.MessageRouter.{parsed_user, route}
use realtime_notification_pl.Websocket.MessageRouter.Ownership.{Reached, route-Reached}
use realtime_notification_pl.Websocket.Gateway.{
  Gateway, Inbound, frame, garbled, binary, send_backlog, reply, receive_loop, session_body,
}

abbrev is_other : Uuid → Notification → Bool
is_other v row = not (row.user_id == v)

marks_no_other :
    (n v : Uuid) (t : ℕ) (rows : List Notification)
    → filter (is_other v) (map (mark_row n v t) rows) ≡ filter (is_other v) rows
marks_no_other n v t [] = refl
marks_no_other n v t (row ∷ rows) =
    ground (arith, ==_iff row.notification_id n, ==_iff row.user_id v, marks_no_other n v t rows)

module _ ⦃p : Platform⦄ where
  open p use {postgres}

  -- the committed notifications of the other users
  abbrev pub others : Uuid → postgres.State → List Notification
  others v s = filter (is_other v) (postgres.notifications s)

  Reached-others : (v : Uuid) (a b : postgres.State) → Reached v a b → others v b ≡ others v a
  Reached-others v a b (inl h) = ap (filter (is_other v)) h.rows
  Reached-others v a b (inr (n, t, h)) =
      ap (filter (is_other v)) h.rows ∙ marks_no_other n v t (postgres.notifications a)

  module _ (self : Gateway) (socket : Socket) (u id : String) (v : Uuid) (d : postgres.State)
      (same : p.uuid_parse u ≡ some v) where
    abbrev Kept : Stored
    Kept s db ses = others v db ≡ others v d

    route-Kept : (raw : Json) → Keeps Kept (route self.message_router u id raw)
    route-Kept raw =
        Keeps-of_In Kept _
          (λ w h. Reached-others v _ _ (route-Reached self.message_router u id v raw w same) ∙ h)

    transmit-Kept : (message : Json) → Keeps Kept (transmit socket message)
    unfolding transmit
    transmit-Kept message = Keeps-call Kept _ (λ w h. h)

    reply-Kept : (o : Option Json) → Keeps Kept (reply socket o)
    reply-Kept none = Keeps-pure Kept tt
    reply-Kept (some message) = transmit-Kept message

    receive_loop-Kept :
        (inbound : List Inbound) → Keeps Kept (receive_loop self socket u id inbound)
    unfolding receive_loop
    receive_loop-Kept [] = Keeps-raise Kept _
    receive_loop-Kept (garbled ∷ rest) = Keeps-raise Kept _
    receive_loop-Kept (binary ∷ rest) = Keeps-raise Kept _
    receive_loop-Kept (frame raw ∷ rest) =
        Keeps-bind Kept _ _ (route-Kept raw)
          (λ o. Keeps-bind Kept _ _ (reply-Kept o) (λ _. receive_loop-Kept rest))

    parsed-Kept : (o : Option Uuid) → Keeps Kept (parsed_user o)
    parsed-Kept none = Keeps-raise Kept _
    parsed-Kept (some x) = Keeps-pure Kept x

    backlog-Kept : (x : Uuid) (limit : ℕ) → Keeps Kept (get_unread_backlog x limit)
    unfolding get_unread_backlog
    backlog-Kept x limit = Keeps-call Kept _ (λ w h. h)

    send_backlog-Kept : (limit : ℕ) → Keeps Kept (send_backlog socket u limit)
    unfolding send_backlog
    send_backlog-Kept limit = Keeps-bind Kept _ _ (Keeps-modify Kept _ (λ w h. h)) (λ _.
        Keeps-bind Kept _ _ (parsed-Kept _)
          (λ x. Keeps-bind Kept _ _ (backlog-Kept x limit) (λ rows. transmit-Kept _)))

    body-Kept : (inbound : List Inbound) → Keeps Kept (session_body self socket u id inbound)
    unfolding session_body
    body-Kept inbound = Keeps-bind Kept _ _ (send_backlog-Kept _) (λ _. receive_loop-Kept inbound)

  -- In a session under a user id that spells a UUID, however many messages the client sends, of
  -- whatever content, and whatever calls fail, the committed notifications of all the other users
  -- stay what they were.
  pub session_body-others :
      (self : Gateway) (socket : Socket) (u id : String) (v : Uuid) (inbound : List Inbound)
      (w : World)
      → p.uuid_parse u ≡ some v
      → others v (session_body self socket u id inbound w).1.database ≡ others v w.database
  session_body-others self socket u id v inbound w same =
      Keeps-In (Kept self socket u id v w.database same) _
        (body-Kept self socket u id v w.database same inbound) w refl
