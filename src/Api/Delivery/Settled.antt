-- ===== src/Api/Delivery/Settled.antt =====
-- From a read receipt to the first frame of a later session.
use mathlib.Core.List.{Mem}
use realtime_notification_pl.Prelude.{ℕ, String, ◌≡◌, ◌≢◌, none, List, [], ◌∷◌, ◌++◌}
use realtime_notification_pl.Prelude.Lists.{All, All-mem}
use realtime_notification_pl.Postgres.{Uuid, Notification}
use realtime_notification_pl.Platform.{Platform}
use realtime_notification_pl.World.{World, Socket, ok, calm}
use realtime_notification_pl.Db.Repository.Backlog.{Unread}
use realtime_notification_pl.Websocket.Messages.{read_receipt_message, backlog_message}
use realtime_notification_pl.Websocket.MessageRouter.{MessageRouter, route}
use realtime_notification_pl.Websocket.MessageRouter.Acknowledged.{IsRead, route-IsRead}
use realtime_notification_pl.Websocket.Gateway.{send_backlog}
use realtime_notification_pl.Websocket.Gateway.Backlog.{send_backlog-Unread}

module _ (n u : Uuid) (read later : List Notification) (settled : All (IsRead n u) read)
    (kept : (row : Notification) → Mem row later → row.notification_id ≡ n → Mem row read) where
  -- an unread row of the user is another notification's
  others :
      (rows : List Notification)
      → All (Unread u) rows
      → All (λ row. Mem row later) rows
      → All (λ row. row.notification_id ≢ n) rows
  others [] unread there = tt
  others (row ∷ rows) unread there = (
    λ id.
        All-mem (IsRead n u) (λ r. hlevel) row read settled (kept row there.0 id) id unread.0.0
          unread.0.1,
    others rows unread.1 there.1,
  )

module _ ⦃p : Platform⦄ where
  -- A read receipt that the router let pass without an answer, whatever calls failed on the way, is
  -- final: no later session of the user is sent that notification with its first frame, if a row
  -- with the receipt's id that is there later was there, as it is, when the receipt had been
  -- handled, and the calls of the session are answered.
  pub acknowledged_is_not_shown :
      (self : MessageRouter) (id : String) (n u : Uuid) (w : World) (socket : Socket) (limit : ℕ)
      (later : World)
      → (route self (p.uuid_text u) id (read_receipt_message n) w).0 ≡ ok none
      → ((row : Notification)
          → Mem row (p.postgres.notifications later.database)
          → row.notification_id ≡ n
          → Mem row (
              p.postgres.notifications
                (route self (p.uuid_text u) id (read_receipt_message n) w).1.database))
      → let (r', w') = send_backlog socket (p.uuid_text u) limit (calm later) in
        (rows : List Notification) × (r' ≡ ok tt)
        × (w'.frames ≡ later.frames ++ (socket, backlog_message rows) ∷ [])
        × All (λ row. row.notification_id ≢ n) rows
  acknowledged_is_not_shown self id n u w socket limit later silent kept =
      let (rows, sent, frames, unread, there) = send_backlog-Unread socket u limit later in
      (
        rows,
        sent,
        frames,
        others n u _ _ (route-IsRead n u self (p.uuid_text u) id w (p.parse-text u) silent) kept
            rows unread there,
      )
