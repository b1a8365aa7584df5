-- ===== src/Api/History.antt =====
-- app/api/routes/history.py
pub mod Pages
use mathlib.Core.List.{get_last?}
use realtime_notification_pl.Prelude.{
  ℕ, Bool, Option, none, some, List, leb, ◌&&◌, ◌==◌, if◌then◌else◌,
}
use mathlib.Core.Option as Option
use realtime_notification_pl.Prelude.Lists.{length}
use realtime_notification_pl.Postgres.{Uuid, Notification, ReadReceipt}
use realtime_notification_pl.Platform.{Platform}
use realtime_notification_pl.World.{Action, http, pure, raise, ◌>>=◌, ◌>>◌}
use realtime_notification_pl.Db.Repository as Repository
use realtime_notification_pl.Db.Repository.{get_session}

-- NotificationHistoryPage; a NotificationRead has the columns of its row but the key
pub record Page : Type 0 where
  pub notifications : List Notification
  pub next_cursor : Option ℕ

abbrev pub cursor : Option Notification → Option ℕ
cursor none = none
cursor (some row) = some row.created_at

-- `Query(ge=1, le=200)`
abbrev pub in_range : ℕ → Bool
in_range limit = leb 1 limit && leb limit 200

abbrev pub page : ℕ → List Notification → Page
page limit rows = record {
  notifications = rows;
  next_cursor = if length rows == limit then cursor (get_last? rows) else none;
}

module _ ⦃p : Platform⦄ where
  unfoldable pub fetch_page : Uuid → ℕ → Option ℕ → Action Page
  fetch_page user_id limit before = do
    get_session
    rows ← Repository.get_history user_id limit before
    pure (page limit rows)

  unfoldable pub get_history : Uuid → ℕ → Option ℕ → Action Page
  get_history user_id limit before =
      if in_range limit then fetch_page user_id limit before else raise (http 422 "limit")

  unfoldable pub get_read_receipts : Uuid → Action (List ReadReceipt)
  get_read_receipts notification_id = do get_session; Repository.get_read_receipts notification_id
