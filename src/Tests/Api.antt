-- ===== src/Tests/Api.antt =====
-- Notifications: from the request to the tables, the channel and the pages.
use mathlib.Core.List.{Mem, get_last?}
use realtime_notification_pl.Prelude.{
  ◌<◌, ◌≡◌, refl, true, none, some, [], ◌∷◌, ◌++◌, arith, map, List, ◌==◌, if◌then◌else◌,
}
use realtime_notification_pl.Prelude.Lists.{length}
use realtime_notification_pl.Postgres.{Notification, asc}
use realtime_notification_pl.Postgres.Queries.{Answers}
use realtime_notification_pl.Platform.Sample.{sample, spell}
use realtime_notification_pl.Keys.{registry_key, liveness_key, dedup_key, rate_limit_key}
use realtime_notification_pl.World.{ok, calm, ◌>>=◌}
use realtime_notification_pl.World.Keeps.{In, Outcome}
use realtime_notification_pl.Pubsub.Publisher.{instance_channel}
use realtime_notification_pl.Db.Repository.{mark_read, get_unread_backlog}
use realtime_notification_pl.Db.Repository.Backlog.{Unread, OfHistory, get_unread_backlog_lem}
use realtime_notification_pl.Db.Repository.Reads.{Either, Told, mark_read-Outcome}
use realtime_notification_pl.Api.Notifications.{create_notification, persist, live_message}
use realtime_notification_pl.Api.Notifications.Guarded.{IsGuarded, create_notification-IsGuarded}
use realtime_notification_pl.Api.Notifications.Outcomes.{LiveOn, answer, deliver_row, persist_live}
use realtime_notification_pl.Api.Delivery.Live.{Delivered, create_notification-deliver}
use realtime_notification_pl.Core.RateLimiter.{allow, token_bucket, admit, verdict}
use realtime_notification_pl.Api.History.{Page, cursor, get_history}
use realtime_notification_pl.Api.History.Pages.{IsPage, get_history-IsPage, cursor_skips_ties}
use realtime_notification_pl.Tests.Worlds.{busy, connected, seven, tables, body, api}

busy-IsGuarded : In IsGuarded busy
busy-IsGuarded = record { rows = λ n d there. absurd (there refl) }

create_notification-IsGuarded_example :
    In IsGuarded (create_notification api (some "10.0.0.1") body busy).1
create_notification-IsGuarded_example =
    create_notification-IsGuarded api (some "10.0.0.1") body busy (omega arith) (omega arith)
      busy-IsGuarded

mark_read-Outcome_example :
    let (r, w') = mark_read 7 2 50 (record busy { session = busy.database }) in
    Outcome (Either 7 2 50 busy.database) (Told 7 2 50 busy.database) r w'
mark_read-Outcome_example = mark_read-Outcome 7 2 50 busy

connected-LiveOn : LiveOn connected 2 "i2"
unfolding registry_key liveness_key
connected-LiveOn = (refl, refl)

persist_live_example :
    let (r, w') = persist api body (calm connected) in
    let row = sample.postgres.new_row body tables in
    (r ≡ ok (answer 9 true true))
    × (w'.published ≡ (instance_channel "i2", live_message row 2 100) ∷ [])
    × (w'.database.rows ≡ map (deliver_row 9) (tables.rows ++ row ∷ []))
persist_live_example = persist_live api body connected (omega arith) "i2" refl connected-LiveOn

limit_not_reached : (allow api.api_rate_limiter "unknown" (calm connected)).0 ≡ ok true
unfolding allow token_bucket admit verdict rate_limit_key registry_key liveness_key ◌>>=◌
limit_not_reached = refl

not_seen : sample.redis.peek connected.cache 0 (dedup_key (spell 9)) ≡ none
unfolding dedup_key registry_key liveness_key
not_seen = refl

create_notification-deliver_example : Delivered api none body connected "i2" connected 41
create_notification-deliver_example =
    create_notification-deliver api none body connected (omega arith) "i2" connected 41
      (omega arith) limit_not_reached not_seen refl connected-LiveOn refl

get_unread_backlog_lem_example :
    (rows : List Notification) × (get_unread_backlog 2 100 (calm connected)
      ≡ (ok rows, calm connected))
    × Answers asc (λ r. r.created_at) (Unread 2) 100 tables.rows rows
get_unread_backlog_lem_example = get_unread_backlog_lem 2 100 connected

get_history-IsPage_example :
    (pg : Page) × ((get_history 2 1 none (calm connected)).0 ≡ ok pg)
    × IsPage 2 1 none connected pg
    × (pg.next_cursor
        ≡ (if length pg.notifications == 1 then cursor (get_last? pg.notifications) else none))
    × (length pg.notifications < 1
        → (x : Notification) → Mem x tables.rows
        → OfHistory 2 none x
        → Mem x pg.notifications)
get_history-IsPage_example = get_history-IsPage 2 1 none connected refl

cursor_skips_ties_example :
    (pg : Page) × ((get_history 2 1 (some 5) (calm connected)).0 ≡ ok pg)
    × (¬ Mem seven pg.notifications)
cursor_skips_ties_example = cursor_skips_ties 2 1 5 connected seven refl refl
