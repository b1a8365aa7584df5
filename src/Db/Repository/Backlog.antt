-- ===== src/Db/Repository/Backlog.antt =====
-- The two listings of notifications: the unread backlog and the history.
use mathlib.Core.List.{Mem}
use realtime_notification_pl.Prelude.Lists.{count}
use realtime_notification_pl.Prelude.{ℕ, ◌≤◌, ◌<◌, ◌≡◌, refl, true, Option, none, some, List, arith}
use realtime_notification_pl.Postgres.{Uuid, Notification, asc, desc}
use realtime_notification_pl.Postgres.Queries.{Answers, Answers-take, mem-take}
use realtime_notification_pl.Platform.{Platform}
use realtime_notification_pl.World.{World, ok, calm, call}
use realtime_notification_pl.Db.Repository.{is_unread, is_history, get_unread_backlog, get_history}

abbrev pub Unread : Uuid → Notification → Type 0
Unread u row = (row.user_id ≡ u) × (row.read_at ≡ none)

abbrev pub Earlier : Option ℕ → Notification → Type 0
Earlier none row = Unit
Earlier (some t) row = row.created_at < t

abbrev pub OfHistory : Uuid → Option ℕ → Notification → Type 0
OfHistory u before row = (row.user_id ≡ u) × Earlier before row

is_unread-true : (u : Uuid) (row : Notification) → is_unread u row ≡ true → Unread u row
is_unread-true u row h = ground arith

true-is_unread : (u : Uuid) (row : Notification) → Unread u row → is_unread u row ≡ true
true-is_unread u row h = ground arith

is_history-true :
    (u : Uuid) (before : Option ℕ) (row : Notification)
    → is_history u before row ≡ true
    → OfHistory u before row
is_history-true u none row h = ground arith
is_history-true u (some t) row h = ground arith

true-is_history :
    (u : Uuid) (before : Option ℕ) (row : Notification)
    → OfHistory u before row
    → is_history u before row ≡ true
true-is_history u none row h = ground arith
true-is_history u (some t) row h = ground arith

module _ ⦃p : Platform⦄ where
  pub select-Answers :
      (u : Uuid) (limit : ℕ) (s : p.postgres.State)
      → Answers asc
          (λ r. r.created_at)
          (Unread u)
          limit
          (p.postgres.notifications s)
          (p.postgres.select (is_unread u) asc limit s)
  select-Answers u limit s =
      let (out, sel, same) = p.postgres.select_rows (is_unread u) asc limit s in
      rw same (
        Answers-take asc (λ r. r.created_at) (is_unread u) (Unread u) (is_unread-true u)
          (true-is_unread u) limit (p.postgres.notifications s) out sel)

  -- When the query is answered, the backlog is the user's unread rows, oldest first, at most
  -- `limit`, and all of them if there are fewer; nothing changes.
  pub get_unread_backlog_lem :
      (u : Uuid) (limit : ℕ) (w : World)
      → (rows : List Notification) × (get_unread_backlog u limit (calm w) ≡ (ok rows, calm w))
        × Answers asc (λ r. r.created_at) (Unread u) limit (p.postgres.notifications w.session) rows
  unfolding get_unread_backlog call
  get_unread_backlog_lem u limit w =
      (p.postgres.select (is_unread u) asc limit w.session, refl, select-Answers u limit w.session)

  -- and all of them are there when there are no more than `limit`
  pub select_unread-all :
      (u : Uuid) (limit : ℕ) (s : p.postgres.State)
      → count (is_unread u) (p.postgres.notifications s) ≤ limit
      → (row : Notification) → Mem row (p.postgres.notifications s)
      → Unread u row
      → Mem row (p.postgres.select (is_unread u) asc limit s)
  select_unread-all u limit s few row there unread =
      let (out, sel, same) = p.postgres.select_rows (is_unread u) asc limit s in
      rw same (
        mem-take asc (λ r. r.created_at) (is_unread u) limit (p.postgres.notifications s) out sel
          few row there (true-is_unread u row unread))

  -- The history is answered: the user's rows before the cursor, newest first, at most `limit`, and
  -- all of them if there are fewer; nothing changes.
  pub get_history_lem :
      (u : Uuid) (limit : ℕ) (before : Option ℕ) (w : World)
      → (rows : List Notification) × (get_history u limit before (calm w) ≡ (ok rows, calm w))
        × Answers desc
            (λ r. r.created_at)
            (OfHistory u before)
            limit
            (p.postgres.notifications w.session)
            rows
  unfolding get_history call
  get_history_lem u limit before w =
      let (out, sel, same) = p.postgres.select_rows (is_history u before) desc limit w.session in
      (
        p.postgres.select (is_history u before) desc limit w.session,
        refl,
        rw same (
            Answers-take desc (λ r. r.created_at) (is_history u before) (OfHistory u before)
              (is_history-true u before) (true-is_history u before) limit
              (p.postgres.notifications w.session) out sel),
      )
