-- ===== src/Postgres/Table.antt =====
-- Tables as lists with an insertion sort for ORDER BY: a value of the interface, at which the
-- witnesses are evaluated. It shows that the documented behaviour can be met.
mod Sort
use realtime_notification_pl.Prelude.{
  ℕ, ◌+◌, ◌≡◌, refl, Bool, true, false, Option, none, some, List, [], ◌∷◌, ◌++◌, map, arith,
  if◌then◌else◌,
}
use realtime_notification_pl.Prelude.Lists.{length, take, filter, count, any}
use realtime_notification_pl.Postgres.{
  Uuid, Notification, ReadReceipt, NewNotification, Direction, asc, Selects, has_id, KeepsIdentity,
  Postgres,
}
use Sort.{sort, sort-Selects}

pub record Tables : Type 0 where
  pub rows : List Notification
  pub receipts : List ReadReceipt
  pub clock : ℕ

abbrev pub empty : Tables
empty = record { rows = []; receipts = []; clock = 0 }

abbrev pub row : NewNotification → Tables → Notification
row n s = record {
  id = length s.rows + 1;
  notification_id = n.notification_id;
  user_id = n.user_id;
  type = n.type;
  payload = n.payload;
  created_at = s.clock;
  delivered_live = false;
  read_at = none;
}

abbrev pub receipt : Uuid → Uuid → ℕ → Tables → ReadReceipt
receipt n u t s = record {
  id = length s.receipts + 1;
  notification_id = n;
  user_id = u;
  read_at = t;
}

abbrev pub insert : NewNotification → Tables → Option Notification × Tables
insert n s =
    if has_id n.notification_id s.rows
    then (none, s)
    else (some (row n s), record s { rows = s.rows ++ row n s ∷ []; clock = s.clock + 1 })

abbrev pub update : (Notification → Bool) → (Notification → Notification) → Tables → ℕ × Tables
update p f s = (count p s.rows, record s { rows = map (λ r. if p r then f r else r) s.rows })

pub insert_conflict_lem :
    (n : NewNotification) (s : Tables)
    → has_id n.notification_id s.rows ≡ true
    → ((insert n s).0 ≡ none) × ((insert n s).1.rows ≡ s.rows)
insert_conflict_lem n s h = rw h (refl, refl)

pub insert_fresh_lem :
    (n : NewNotification) (s : Tables)
    → has_id n.notification_id s.rows ≡ false
    → ((insert n s).0 ≡ some (row n s)) × ((insert n s).1.rows ≡ s.rows ++ row n s ∷ [])
insert_fresh_lem n s h = rw h (refl, refl)

pub receipts-insert_lem : (n : NewNotification) (s : Tables) → (insert n s).1.receipts ≡ s.receipts
receipts-insert_lem n s = ground arith

abbrev pub table : Postgres
table = record {
  State = Tables;
  notifications = λ s. s.rows;
  read_receipts = λ s. s.receipts;
  new_row = row;
  new_receipt = receipt;
  insert = insert;
  update = update;
  insert_receipt = λ n u t s. record s { receipts = s.receipts ++ receipt n u t s ∷ [] };
  select = λ p dir limit s. take limit (sort dir (λ r. r.created_at) (filter p s.rows));
  select_receipts = λ p dir s. sort dir (λ r. r.read_at) (filter p s.receipts);
  new_row_values = λ n s. (refl, refl, refl, refl, refl, refl);
  new_receipt_values = λ n u t s. (refl, refl, refl);
  insert_conflict = insert_conflict_lem;
  insert_fresh = insert_fresh_lem;
  receipts-insert = receipts-insert_lem;
  update_rows = λ p f s h. (refl, refl, refl);
  insert_receipt_rows = λ n u t s. (refl, refl);
  select_rows = λ p dir limit s. (
    sort dir (λ r. r.created_at) (filter p s.rows),
    sort-Selects p dir (λ r. r.created_at) s.rows,
    refl,
  );
  select_receipt_rows = λ p dir s. sort-Selects p dir (λ r. r.read_at) s.receipts;
}
