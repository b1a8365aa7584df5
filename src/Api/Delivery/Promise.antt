-- ===== src/Api/Delivery/Promise.antt =====
-- From the answer of POST /notifications to the first frame of a later session.
use mathlib.Core.List.{Mem}
use realtime_notification_pl.Prelude.{ℕ, ◌≤◌, String, ◌≡◌, true, Option, List, [], ◌∷◌, ◌++◌}
use realtime_notification_pl.Prelude.Lists.{count}
use realtime_notification_pl.Postgres.{Notification, NewNotification}
use realtime_notification_pl.Platform.{Platform}
use realtime_notification_pl.World.{World, Socket, ok, calm}
use realtime_notification_pl.Db.Repository.{is_unread}
use realtime_notification_pl.Websocket.Messages.{backlog_message}
use realtime_notification_pl.Websocket.Gateway.{send_backlog}
use realtime_notification_pl.Websocket.Gateway.Backlog.{send_backlog-all}
use realtime_notification_pl.Api.Notifications.{Api, Response, create_notification}
use realtime_notification_pl.Api.Notifications.Carried.{Carries, IsStoredIn}
use realtime_notification_pl.Api.Notifications.Durable.{persisted-IsStoredIn}

module _ ⦃p : Platform⦄ where
  -- A notification that the caller was told is persisted, whatever calls failed on the way, is
  -- among the rows of the first frame that a later session of its user sends, if the row is still
  -- there as it was, the user has no more unread rows than the limit of the backlog, and the calls
  -- of that session are answered.
  pub persisted_is_shown :
      (self : Api) (client : Option String) (body : NewNotification) (r : Response) (w : World)
      (socket : Socket) (limit : ℕ) (later : World)
      → (create_notification self client body w).0 ≡ ok r
      → r.persisted ≡ true
      → ((row : Notification)
          → Mem row (p.postgres.notifications (create_notification self client body w).1.database)
          → Carries body row
          → Mem row (p.postgres.notifications later.database))
      → count (is_unread body.user_id) (p.postgres.notifications later.database) ≤ limit
      → let (r', w') = send_backlog socket (p.uuid_text body.user_id) limit (calm later) in
        (rows : List Notification) × (r' ≡ ok tt)
        × (w'.frames ≡ later.frames ++ (socket, backlog_message rows) ∷ [])
        × IsStoredIn body rows
  persisted_is_shown self client body r w socket limit later answered told kept few =
      let (row, there, carries) = persisted-IsStoredIn self client body r w answered told in
      let (rows, sent, frames, all) = send_backlog-all socket body.user_id limit later few in
      (
        rows,
        sent,
        frames,
        (row, all row (kept row there carries) (carries.user_id, carries.unread), carries),
      )
