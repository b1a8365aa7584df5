-- ===== src/Postgres/Rows.antt =====
-- What the statements do to the ids of the rows.
use realtime_notification_pl.Prelude.{
  ◌≡◌, refl, Bool, true, inl, inr, List, [], ◌∷◌, ◌++◌, map, arith, Bool-cases, if◌then◌else◌,
}
use realtime_notification_pl.Postgres.{
  Uuid, Notification, NewNotification, has_id, KeepsIdentity, Postgres,
}

has_id-append :
    (n : Uuid) (xs ys : List Notification) → has_id n xs ≡ true → has_id n (xs ++ ys) ≡ true
has_id-append n [] ys h = cc
has_id-append n (x ∷ xs) ys h = ground (arith, has_id-append n xs ys)

has_id-snoc :
    (n : Uuid) (xs : List Notification) (y : Notification)
    → y.notification_id ≡ n
    → has_id n (xs ++ y ∷ []) ≡ true
has_id-snoc n [] y h = ground arith
has_id-snoc n (x ∷ xs) y h = ground (arith, has_id-snoc n xs y h)

has_id-map :
    (n : Uuid) (q : Notification → Bool) (f : Notification → Notification) (xs : List Notification)
    → KeepsIdentity f
    → has_id n (map (λ r. if q r then f r else r) xs) ≡ has_id n xs
has_id-map n q f [] keeps = refl
has_id-map n q f (x ∷ xs) keeps = ground (arith, has_id-map n q f xs keeps, keeps x)

module _ (db : Postgres) where
  pub has_id-insert :
      (n : Uuid) (v : NewNotification) (s : db.State)
      → has_id n (db.notifications s) ≡ true
      → has_id n (db.notifications (db.insert v s).1) ≡ true
  has_id-insert n v s h = elim (Bool-cases (has_id v.notification_id (db.notifications s))) [
    | inl old ↦ rw ((db.insert_conflict v s old).1) h
    | inr new ↦ rw ((db.insert_fresh v s new).1) (has_id-append n (db.notifications s) _ h)
  ]

  -- after an INSERT the id is there, whether or not there was a conflict
  pub has_id-insert_self :
      (v : NewNotification) (s : db.State)
      → has_id v.notification_id (db.notifications (db.insert v s).1) ≡ true
  has_id-insert_self v s = elim (Bool-cases (has_id v.notification_id (db.notifications s))) [
    | inl old ↦ rw ((db.insert_conflict v s old).1) old
    | inr new ↦
        rw ((db.insert_fresh v s new).1)
          (has_id-snoc v.notification_id (db.notifications s) _ (db.new_row_values v s).0)
  ]

  pub has_id-update :
      (n : Uuid) (q : Notification → Bool) (f : Notification → Notification) (s : db.State)
      → KeepsIdentity f
      → has_id n (db.notifications (db.update q f s).1) ≡ has_id n (db.notifications s)
  has_id-update n q f s keeps =
      rw ((db.update_rows q f s keeps).1) (has_id-map n q f (db.notifications s) keeps)
