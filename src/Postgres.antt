-- ===== src/Postgres.antt =====
-- The PostgreSQL server with the tables of app/db/models.py, which the program calls through
-- SQLAlchemy: an interface of the statements that the repository issues, with the behaviour that
-- SQL documents for them. It is a parameter of the model.
pub mod Table
pub mod Rows
pub mod Queries
use mathlib.Core.List.{Perm}
use realtime_notification_pl.Prelude.{
  ℕ, ◌≤◌, String, ◌≡◌, Bool, true, false, Option, none, some, List, [], ◌∷◌, ◌++◌, map, ◌==◌,
  if◌then◌else◌,
}
use realtime_notification_pl.Prelude.Lists.{take, filter, count, any, All}
use realtime_notification_pl.Json.{Fields}

-- `uuid.UUID`, by its integer
abbrev pub Uuid : Type 0
Uuid = ℕ

pub record Notification : Type 0 where
  pub id : ℕ
  pub notification_id : Uuid
  pub user_id : Uuid
  pub type : String
  pub payload : Fields
  pub created_at : ℕ
  pub delivered_live : Bool
  pub read_at : Option ℕ

pub record ReadReceipt : Type 0 where
  pub id : ℕ
  pub notification_id : Uuid
  pub user_id : Uuid
  pub read_at : ℕ

-- the columns that an INSERT into notifications gives
pub record NewNotification : Type 0 where
  pub notification_id : Uuid
  pub user_id : Uuid
  pub type : String
  pub payload : Fields

pub data Direction : Type 0 where
  asc desc : Direction

abbrev pub Before : Direction → ℕ → ℕ → Type 0
Before asc a b = a ≤ b
Before desc a b = b ≤ a

-- ORDER BY
abbrev pub IsOrdered {ℓ} : {A : Type ℓ} → Direction → (A → ℕ) → List A → Type 0
IsOrdered dir key [] = Unit
IsOrdered dir key (x ∷ xs) = All (λ y. Before dir (key x) (key y)) xs × IsOrdered dir key xs

-- a SELECT with WHERE and ORDER BY: ties come in any order
pub record Selects {A : Type 0} (p : A → Bool) (dir : Direction) (key : A → ℕ) (rows out : List A)
    : Type 0 where
  pub perm : Perm out (filter p rows)
  pub ordered : IsOrdered dir key out

abbrev pub has_id : Uuid → List Notification → Bool
has_id n = any (λ r. r.notification_id == n)

-- an UPDATE may not change the identity of a row
abbrev pub KeepsIdentity : (Notification → Notification) → Type 0
KeepsIdentity f =
    (r : Notification) → ((f r).id ≡ r.id) × ((f r).notification_id ≡ r.notification_id)

pub record Postgres : Type 1 where
  pub State : Type 0
  -- the rows, in the order of the primary key
  pub notifications : State → List Notification
  pub read_receipts : State → List ReadReceipt
  -- the row and the receipt that the server would make now, with its defaults
  pub new_row : NewNotification → State → Notification
  pub new_receipt : Uuid → Uuid → ℕ → State → ReadReceipt
  -- INSERT … ON CONFLICT (notification_id) DO NOTHING RETURNING
  pub insert : NewNotification → State → Option Notification × State
  -- UPDATE … WHERE, with the number of rows that matched
  pub update : (Notification → Bool) → (Notification → Notification) → State → ℕ × State
  pub insert_receipt : Uuid → Uuid → ℕ → State → State
  pub select : (Notification → Bool) → Direction → ℕ → State → List Notification
  pub select_receipts : (ReadReceipt → Bool) → Direction → State → List ReadReceipt
  pub new_row_values :
      (n : NewNotification) (s : State)
      → let r = new_row n s in
        (r.notification_id ≡ n.notification_id)
        × (r.user_id ≡ n.user_id)
        × (r.type ≡ n.type)
        × (r.payload ≡ n.payload)
        × (r.delivered_live ≡ false)
        × (r.read_at ≡ none)
  pub new_receipt_values :
      (n u : Uuid) (t : ℕ) (s : State)
      → let r = new_receipt n u t s in (r.notification_id ≡ n) × (r.user_id ≡ u) × (r.read_at ≡ t)
  pub insert_conflict :
      (n : NewNotification) (s : State)
      → has_id n.notification_id (notifications s) ≡ true
      → ((insert n s).0 ≡ none) × (notifications (insert n s).1 ≡ notifications s)
  pub insert_fresh :
      (n : NewNotification) (s : State)
      → has_id n.notification_id (notifications s) ≡ false
      → ((insert n s).0 ≡ some (new_row n s))
        × (notifications (insert n s).1 ≡ notifications s ++ new_row n s ∷ [])
  pub receipts-insert :
      (n : NewNotification) (s : State) → read_receipts (insert n s).1 ≡ read_receipts s
  pub update_rows :
      (p : Notification → Bool) (f : Notification → Notification) (s : State)
      → KeepsIdentity f
      → ((update p f s).0 ≡ count p (notifications s))
        × (notifications (update p f s).1 ≡ map (λ r. if p r then f r else r) (notifications s))
        × (read_receipts (update p f s).1 ≡ read_receipts s)
  pub insert_receipt_rows :
      (n u : Uuid) (t : ℕ) (s : State)
      → (notifications (insert_receipt n u t s) ≡ notifications s)
        × (read_receipts (insert_receipt n u t s) ≡ read_receipts s ++ new_receipt n u t s ∷ [])
  -- ORDER BY created_at LIMIT
  pub select_rows :
      (p : Notification → Bool) (dir : Direction) (limit : ℕ) (s : State)
      → (out : List Notification) × Selects p dir (λ r. r.created_at) (notifications s) out
        × (select p dir limit s ≡ take limit out)
  -- ORDER BY read_at
  pub select_receipt_rows :
      (p : ReadReceipt → Bool) (dir : Direction) (s : State)
      → Selects p dir (λ r. r.read_at) (read_receipts s) (select_receipts p dir s)
