-- ===== src/Db/Repository.antt =====
-- app/db/repository.py, and the session of app/db/connection.py: statements act on what the
-- session sees, and a commit publishes that. A session that ends without a commit leaves nothing.
pub mod Backlog
pub mod Reads
use realtime_notification_pl.Prelude.{
  ℕ, ltb, Bool, true, false, ◌&&◌, Option, none, some, List, ◌==◌, if◌then◌else◌,
}
use realtime_notification_pl.Postgres.{Uuid, Notification, ReadReceipt, NewNotification, asc, desc}
use realtime_notification_pl.Platform.{Platform}
use realtime_notification_pl.World.{Action, pure, modify, call, ◌>>=◌, ◌>>◌}

abbrev pub set_delivered : Notification → Notification
set_delivered row = record row { delivered_live = true }

abbrev pub set_read : ℕ → Notification → Notification
set_read t row = record row { read_at = some t }

abbrev pub is_owned : Uuid → Uuid → Notification → Bool
is_owned notification_id user_id row =
    row.notification_id == notification_id && row.user_id == user_id

-- `read_at IS NULL`
abbrev pub is_null : Option ℕ → Bool
is_null none = true
is_null (some t) = false

abbrev pub is_unread : Uuid → Notification → Bool
is_unread user_id row = row.user_id == user_id && is_null row.read_at

abbrev pub is_before : Option ℕ → Notification → Bool
is_before none row = true
is_before (some t) row = ltb row.created_at t

abbrev pub is_history : Uuid → Option ℕ → Notification → Bool
is_history user_id before row = row.user_id == user_id && is_before before row

module _ ⦃p : Platform⦄ where
  -- `async with get_session()`: a session begins with what is committed
  abbrev pub get_session : Action Unit
  get_session = modify (λ w. record w { session = w.database })

  -- `session.execute(stmt)` and `session.commit()`
  abbrev pub execute : {A : Type 0} → (p.postgres.State → A × p.postgres.State) → Action A
  execute stmt = call (λ w. let (a, s) = stmt w.session in (a, record w { session = s }))

  abbrev pub commit : Action Unit
  commit = call (λ w. (tt, record w { database = w.session }))

  unfoldable pub create : NewNotification → Action (Option Notification)
  create values = do row ← execute (p.postgres.insert values); commit; pure row

  unfoldable pub mark_delivered_live : Uuid → Action Unit
  mark_delivered_live notification_id = do
    execute (p.postgres.update (λ row. row.notification_id == notification_id) set_delivered)
    commit

  -- the rest of `mark_read`, on the UPDATE's rowcount
  abbrev pub record_receipt : Uuid → Uuid → ℕ → ℕ → Action Bool
  record_receipt notification_id user_id t rowcount =
      if rowcount == 0 then (do commit; pure false) else do
        execute (λ s. (tt, p.postgres.insert_receipt notification_id user_id t s))
        commit
        pure true

  unfoldable pub mark_read : Uuid → Uuid → ℕ → Action Bool
  mark_read notification_id user_id t = do
    rowcount ← execute (p.postgres.update (is_owned notification_id user_id) (set_read t))
    record_receipt notification_id user_id t rowcount

  unfoldable pub get_unread_backlog : Uuid → ℕ → Action (List Notification)
  get_unread_backlog user_id limit =
      execute (λ s. (p.postgres.select (is_unread user_id) asc limit s, s))

  unfoldable pub get_history : Uuid → ℕ → Option ℕ → Action (List Notification)
  get_history user_id limit before =
      execute (λ s. (p.postgres.select (is_history user_id before) desc limit s, s))

  unfoldable pub get_read_receipts : Uuid → Action (List ReadReceipt)
  get_read_receipts notification_id =
      execute
        (λ s. (p.postgres.select_receipts (λ r. r.notification_id == notification_id) asc s, s))
