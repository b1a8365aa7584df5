-- ===== src/Api/History/Pages.antt =====
-- The pages of the history, and their cursor.
use mathlib.Core.List.{Mem, get_last?}
use native.Mathlib.Nat.{ℕ_set}
use native.Mathlib.Bridge.{le_prop}
use realtime_notification_pl.Prelude.{
  ℕ, ◌<◌, ◌≡◌, refl, Option, none, some, true, arith, ◌==◌, if◌then◌else◌,
}
use realtime_notification_pl.Prelude.Lists.{length, All-mem}
use realtime_notification_pl.Postgres.{Uuid, Notification, desc}
use realtime_notification_pl.Postgres.Queries.{Answers}
use realtime_notification_pl.Platform.{Platform}
use realtime_notification_pl.World.{World, ok, calm, ◌>>=◌}
use realtime_notification_pl.Db.Repository.Backlog.{OfHistory, get_history_lem}
use realtime_notification_pl.Api.History.{Page, page, cursor, in_range, get_history, fetch_page}

module _ ⦃p : Platform⦄ (u : Uuid) (limit : ℕ) where
  abbrev pub IsPage : Option ℕ → World → Page → Type 0
  IsPage before w pg =
      Answers desc (λ r. r.created_at) (OfHistory u before) limit
        (p.postgres.notifications w.database) pg.notifications

  -- A request in range, with the query answered, yields a page of the user's rows before the
  -- cursor, newest first. The page has a next cursor exactly when it is full, namely the time of
  -- its last row; and a page that is not full has every row of the user before the cursor.
  pub get_history-IsPage :
      (before : Option ℕ) (w : World)
      → in_range limit ≡ true
      → (pg : Page) × ((get_history u limit before (calm w)).0 ≡ ok pg)
        × IsPage before w pg
        × (pg.next_cursor ≡ (
            if length pg.notifications == limit then cursor (get_last? pg.notifications) else none))
        × (length pg.notifications < limit
            → (x : Notification) → Mem x (p.postgres.notifications w.database)
            → OfHistory u before x
            → Mem x pg.notifications)
  unfolding get_history fetch_page ◌>>=◌
  get_history-IsPage before w ok_limit =
      let (rows, answered, answers) =
        get_history_lem u limit before (record w { session = w.database }) in
      (page limit rows, rw (ok_limit, answered), answers, refl, answers.complete)

  -- A row at the very time of the cursor is not on the page that an answered request in range gets
  -- for that cursor. So if the page before ended amid several rows of one time, those that it left
  -- out are not shown next.
  pub cursor_skips_ties :
      (t : ℕ) (w : World) (x : Notification)
      → in_range limit ≡ true
      → x.created_at ≡ t
      → (pg : Page) × ((get_history u limit (some t) (calm w)).0 ≡ ok pg)
        × (¬ Mem x pg.notifications)
  cursor_skips_ties t w x ok_limit tie =
      let (pg, answered, answers, _, _) = get_history-IsPage (some t) w ok_limit in
      (
        pg,
        answered,
        λ m.
            let early =
              All-mem (λ r. OfHistory u (some t) r) (λ r. hlevel (ℕ_set, le_prop)) x
                pg.notifications answers.only m in
            omega arith,
      )
