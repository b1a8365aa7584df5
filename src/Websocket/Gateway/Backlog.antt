-- ===== src/Websocket/Gateway/Backlog.antt =====
-- The first frame of a session.
use mathlib.Core.List.{Mem}
use realtime_notification_pl.Prelude.{ℕ, ◌≤◌, ◌≡◌, refl, List, [], ◌∷◌, ◌++◌}
use realtime_notification_pl.Prelude.Lists.{All, count}
use realtime_notification_pl.Postgres.{Uuid, Notification, asc}
use realtime_notification_pl.Platform.{Platform}
use realtime_notification_pl.World.{World, Socket, ok, calm, ◌>>=◌}
use realtime_notification_pl.Db.Repository.{is_unread}
use realtime_notification_pl.Db.Repository.Backlog.{Unread, select_unread-all, select-Answers}
use realtime_notification_pl.Websocket.Messages.{backlog_message}
use realtime_notification_pl.Websocket.ConnectionManager.{transmit}
use realtime_notification_pl.Websocket.Gateway.{send_backlog}

module _ ⦃p : Platform⦄ where
  -- with every call answered, and unread rows within the limit: one frame, with all of them
  pub send_backlog-all :
      (socket : Socket) (u : Uuid) (limit : ℕ) (w : World)
      → count (is_unread u) (p.postgres.notifications w.database) ≤ limit
      → let (r, w') = send_backlog socket (p.uuid_text u) limit (calm w) in
        (rows : List Notification) × (r ≡ ok tt)
        × (w'.frames ≡ w.frames ++ (socket, backlog_message rows) ∷ [])
        × ((row : Notification)
            → Mem row (p.postgres.notifications w.database)
            → Unread u row
            → Mem row rows)
  unfolding send_backlog transmit ◌>>=◌
  send_backlog-all socket u limit w few = rw (p.parse-text u) (
    p.postgres.select (is_unread u) asc limit w.database,
    refl,
    refl,
    select_unread-all u limit w.database few,
  )

  -- with every call answered: one frame, with rows of the user that are unread
  pub send_backlog-Unread :
      (socket : Socket) (u : Uuid) (limit : ℕ) (w : World)
      → let (r, w') = send_backlog socket (p.uuid_text u) limit (calm w) in
        (rows : List Notification) × (r ≡ ok tt)
        × (w'.frames ≡ w.frames ++ (socket, backlog_message rows) ∷ [])
        × All (Unread u) rows
        × All (λ row. Mem row (p.postgres.notifications w.database)) rows
  unfolding send_backlog transmit ◌>>=◌
  send_backlog-Unread socket u limit w =
      let listed = select-Answers u limit w.database in
      rw (p.parse-text u) (
        p.postgres.select (is_unread u) asc limit w.database,
        refl,
        refl,
        listed.only,
        listed.from_table,
      )
