-- ===== src/Db/Repository/Reads.antt =====
-- The transaction of `mark_read`, with failing calls.
use realtime_notification_pl.Prelude.{
  ℕ, zero, suc, ◌≡◌, ◌≢◌, refl, sym, ◌∙◌, Bool, true, false, ◌⊎◌, inl, inr, List, [], ◌∷◌, ◌++◌,
  map, some, ap, arith, ◌==◌, ==_iff, if◌then◌else◌,
}
use realtime_notification_pl.Prelude.Lists.{count, All}
use realtime_notification_pl.Postgres.{Uuid, Notification}
use realtime_notification_pl.Platform.{Platform}
use realtime_notification_pl.World.{World, pure, ◌>>◌}
use realtime_notification_pl.World.Keeps.{
  Stored, In, Outcome, Triple, Triple-pure, Triple-call, Triple-bind,
}
use realtime_notification_pl.Db.Repository.{
  execute, commit, is_owned, set_read, record_receipt, mark_read,
}

-- the row is another notification's, or another user's
abbrev pub NotOwned : Uuid → Uuid → Notification → Type 0
NotOwned n u row = (row.notification_id ≢ n) ⊎ (row.user_id ≢ u)

-- the notification `n`, if it is the user's
abbrev pub is_users : Uuid → Uuid → Notification → Bool
is_users n u row = if row.notification_id == n then row.user_id == u else false

abbrev pub mark_row : Uuid → Uuid → ℕ → Notification → Notification
mark_row n u t row = if is_users n u row then record row { read_at = some t } else row

-- the WHERE clause selects just that row
is_owned-is_users : (n u : Uuid) (row : Notification) → is_owned n u row ≡ is_users n u row
is_owned-is_users n u row = ground arith

count_users :
    (n u : Uuid) (rows : List Notification) → count (is_owned n u) rows ≡ count (is_users n u) rows
count_users n u [] = refl
count_users n u (row ∷ rows) = rw (is_owned-is_users n u row) (rw (count_users n u rows) refl)

mark_users :
    (n u : Uuid) (t : ℕ) (rows : List Notification)
    → map (λ r. if is_owned n u r then set_read t r else r) rows ≡ map (mark_row n u t) rows
mark_users n u t [] = refl
mark_users n u t (row ∷ rows) = rw (is_owned-is_users n u row) (rw (mark_users n u t rows) refl)

count_zero :
    (n u : Uuid) (rows : List Notification)
    → count (is_owned n u) rows ≡ 0
    → All (NotOwned n u) rows
count_zero n u [] h = tt
count_zero n u (row ∷ rows) h =
    ground (arith, ==_iff row.notification_id n, ==_iff row.user_id u, count_zero n u rows)

unmarked :
    (n u : Uuid) (t : ℕ) (rows : List Notification)
    → count (is_owned n u) rows ≡ 0
    → map (mark_row n u t) rows ≡ rows
unmarked n u t [] h = refl
unmarked n u t (row ∷ rows) h = ground (arith, unmarked n u t rows)

module _ ⦃p : Platform⦄ where
  open p use {postgres}

  -- nothing a reader can see has changed
  pub record Untouched (a b : postgres.State) : Type 0 where
    pub rows : postgres.notifications b ≡ postgres.notifications a
    pub receipts : postgres.read_receipts b ≡ postgres.read_receipts a

  -- exactly the owned row is read, and there is one receipt more
  pub record Marked (n u : Uuid) (t : ℕ) (a b : postgres.State) : Type 0 where
    pub owned : count (is_users n u) (postgres.notifications a) ≢ 0
    pub rows : postgres.notifications b ≡ map (mark_row n u t) (postgres.notifications a)
    pub receipts :
        (r : _) × (postgres.read_receipts b ≡ postgres.read_receipts a ++ r ∷ [])
        × (r.notification_id ≡ n)
        × (r.user_id ≡ u)
        × (r.read_at ≡ t)

  abbrev pub Start : postgres.State → Stored
  Start d s db ses = (db ≡ d) × (ses ≡ d)

  module _ (n u : Uuid) (t : ℕ) (d : postgres.State) where
    -- the session after the UPDATE
    updated : postgres.State
    updated = (postgres.update (is_owned n u) (set_read t) d).1

    matched : ℕ
    matched = count (is_owned n u) (postgres.notifications d)

    abbrev pub Either : Stored
    Either s db ses = Untouched d db ⊎ Marked n u t d db

    abbrev AfterUpdate : ℕ → Stored
    AfterUpdate rowcount s db ses = (rowcount ≡ matched) × (db ≡ d) × (ses ≡ updated)

    -- what is committed, by the result
    abbrev pub Told : Bool → Stored
    Told true s db ses = Marked n u t d db
    Told false s db ses = Untouched d db × All (NotOwned n u) (postgres.notifications d)

    Untouched-refl : {db : postgres.State} → db ≡ d → Untouched d db
    Untouched-refl e = rw e (record { rows = refl; receipts = refl })

    updated-Untouched : matched ≡ 0 → Untouched d updated
    unfolding updated matched
    updated-Untouched none_matched =
        let (_, rows, receipts) =
          postgres.update_rows (is_owned n u) (set_read t) d (λ r. (refl, refl)) in
        record {
          rows =
              rows
              ∙ mark_users n u t (postgres.notifications d)
              ∙ unmarked n u t (postgres.notifications d) none_matched;
          receipts = receipts;
        }

    receipt-Marked : matched ≢ 0 → Marked n u t d (postgres.insert_receipt n u t updated)
    unfolding updated matched
    receipt-Marked some_matched =
        let (_, rows, receipts) =
          postgres.update_rows (is_owned n u) (set_read t) d (λ r. (refl, refl)) in
        let (rows', receipts') = postgres.insert_receipt_rows n u t updated in
        let (same_n, same_u, same_t) = postgres.new_receipt_values n u t updated in
        record {
          owned = λ e. some_matched (count_users n u (postgres.notifications d) ∙ e);
          rows = rows' ∙ rows ∙ mark_users n u t (postgres.notifications d);
          receipts = (
            postgres.new_receipt n u t updated,
            receipts' ∙ ap (λ l. l ++ postgres.new_receipt n u t updated ∷ []) receipts,
            same_n,
            same_u,
            same_t,
          );
        }

    commit_untouched : Triple Either (AfterUpdate 0) Told (do commit; pure false)
    commit_untouched =
        Triple-bind Either (AfterUpdate 0) (λ _. Told false) Told commit (λ _. pure false)
          (Triple-call Either (AfterUpdate 0) (λ _. Told false) _
            (λ w h.
              let none_matched : matched ≡ 0 = sym h.0 in
              (
                rw (h.2) (updated-Untouched none_matched),
                unfold matched in count_zero n u (postgres.notifications d) none_matched,
              ))
            (λ w h. inl (Untouched-refl h.1)) (λ a w h. inl h.0))
          (λ _. Triple-pure Either (Told false) Told false (λ w h. h))

    -- the receipt is in the session, and not yet committed
    abbrev WithReceipt : Stored
    WithReceipt s db ses = (db ≡ d) × Marked n u t d ses

    insert_and_commit :
        (rowcount : ℕ)
        → rowcount ≢ 0
        → Triple Either
            (AfterUpdate rowcount)
            Told
            (do execute (λ s. (tt, postgres.insert_receipt n u t s)); commit; pure true)
    insert_and_commit rowcount ne =
        Triple-bind Either (AfterUpdate rowcount) (λ _. WithReceipt) Told _ _
          (Triple-call Either (AfterUpdate rowcount) (λ _. WithReceipt) _
            (λ w h. (h.1, rw (h.2) (receipt-Marked (λ e. ne (h.0 ∙ e)))))
            (λ w h. inl (Untouched-refl h.1)) (λ a w h. inl (Untouched-refl h.0)))
          (λ _.
            Triple-bind Either WithReceipt (λ _. Told true) Told commit (λ _. pure true)
              (Triple-call Either WithReceipt (λ _. Told true) _ (λ w h. h.1)
                (λ w h. inl (Untouched-refl h.0)) (λ a w h. inr h))
              (λ _. Triple-pure Either (Told true) Told true (λ w h. h)))

    record_receipt-Told :
        (rowcount : ℕ) → Triple Either (AfterUpdate rowcount) Told (record_receipt n u t rowcount)
    record_receipt-Told zero = commit_untouched
    record_receipt-Told (suc rowcount) =
        let matches : (suc rowcount == 0) ≡ false = ground arith in
        rw matches (insert_and_commit (suc rowcount) (λ e. omega (arith, e)))

    update-AfterUpdate :
        (w : World)
        → In (Start d) w
        → let (rowcount, s) = postgres.update (is_owned n u) (set_read t) w.session in
          AfterUpdate rowcount w.cache w.database s
    unfolding updated matched
    update-AfterUpdate w h =
        rw (h.1)
          ((postgres.update_rows (is_owned n u) (set_read t) d (λ r. (refl, refl))).0, h.0, refl)

    pub mark_read-Told : Triple Either (Start d) Told (mark_read n u t)
    unfolding mark_read
    mark_read-Told =
        Triple-bind Either (Start d) AfterUpdate Told _ (record_receipt n u t)
          (Triple-call Either (Start d) AfterUpdate _ update-AfterUpdate
            (λ w h. inl (Untouched-refl h.0)) (λ a w h. inl (Untouched-refl h.1)))
          record_receipt-Told

  -- A transaction of `mark_read` that is told to succeed has marked exactly the user's own row and
  -- added one receipt; one that is told to fail has changed nothing, and no row is the user's; and
  -- one that is cut off by an exception has done the whole of it, or nothing.
  pub mark_read-Outcome :
      (n u : Uuid) (t : ℕ) (w : World)
      → let (r, w') = mark_read n u t (record w { session = w.database }) in
        Outcome (Either n u t w.database) (Told n u t w.database) r w'
  mark_read-Outcome n u t w =
      (mark_read-Told n u t w.database).at (record w { session = w.database }) (refl, refl)
