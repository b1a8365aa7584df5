-- ===== src/Alembic/Versions.antt =====
-- alembic/versions: the three revisions, each in both directions, and the order in which Alembic
-- runs them along `down_revision`.
pub mod RoundTrip
pub mod Models
use realtime_notification_pl.Prelude.{
  ℕ, zero, suc, String, true, false, Option, none, some, List, [], ◌∷◌, ◌++◌,
}
use realtime_notification_pl.Ddl.{
  Column, Table, Index, Statement, Database, integer, big_integer, uuid, jsonb, timestamp, boolean,
  varchar, create_table, create_index, drop_index, drop_table, ColumnType,
}

-- `sa.Column(name, type, nullable=False)`
abbrev pub required : String → ColumnType → Column
required name type = record {
  name = name;
  type = type;
  nullable = false;
  primary_key = false;
  server_default = none;
}

-- `sa.Column("id", sa.BigInteger(), autoincrement=True, primary_key=True)`
abbrev pub id_column : Column
id_column = record (required "id" big_integer) { primary_key = true }

-- `sa.Column(name, sa.DateTime(timezone=True), server_default=sa.func.now(), nullable=False)`
abbrev pub stamped_now : String → Column
stamped_now name = record (required name timestamp) { server_default = some "now()" }

abbrev pub notifications_table : Table
notifications_table = record {
  name = "notifications";
  columns =
      id_column
      ∷ required "notification_id" uuid
      ∷ required "user_id" uuid
      ∷ required "type" (varchar 50)
      ∷ required "payload" jsonb
      ∷ stamped_now "created_at"
      ∷ record (required "delivered_live" boolean) { server_default = some "false" }
      ∷ record (required "read_at" timestamp) { nullable = true }
      ∷ [];
  unique = "notification_id" ∷ [];
}

abbrev pub user_unread_index : Index
user_unread_index = record {
  name = "idx_notifications_user_unread";
  table = "notifications";
  columns = "user_id" ∷ "created_at" ∷ [];
  condition = some "read_at IS NULL";
}

abbrev pub delivery_log_table : Table
delivery_log_table = record {
  name = "delivery_log";
  columns =
      id_column
      ∷ required "notification_id" uuid
      ∷ required "instance_id" (varchar 100)
      ∷ stamped_now "delivered_at"
      ∷ [];
  unique = [];
}

abbrev pub delivery_log_index : Index
delivery_log_index = record {
  name = "idx_delivery_log_notification_id";
  table = "delivery_log";
  columns = "notification_id" ∷ [];
  condition = none;
}

abbrev pub read_receipts_table : Table
read_receipts_table = record {
  name = "read_receipts";
  columns =
      id_column
      ∷ required "notification_id" uuid
      ∷ required "user_id" uuid
      ∷ stamped_now "read_at"
      ∷ [];
  unique = [];
}

abbrev pub receipts_notification_index : Index
receipts_notification_index = record {
  name = "idx_read_receipts_notification_id";
  table = "read_receipts";
  columns = "notification_id" ∷ [];
  condition = none;
}

abbrev pub receipts_user_index : Index
receipts_user_index = record receipts_notification_index {
  name = "idx_read_receipts_user_id";
  columns = "user_id" ∷ [];
}

-- by its number
pub data Revision : Type 0 where
  first second third : Revision

abbrev pub down_revision : Revision → Option Revision
down_revision first = none
down_revision second = some first
down_revision third = some second

-- each revision's own two functions
abbrev pub upgrade_first : List Statement
upgrade_first = create_table notifications_table ∷ create_index user_unread_index ∷ []

abbrev pub downgrade_first : List Statement
downgrade_first = drop_index "idx_notifications_user_unread" ∷ drop_table "notifications" ∷ []

abbrev pub upgrade_second : List Statement
upgrade_second = create_table delivery_log_table ∷ create_index delivery_log_index ∷ []

abbrev pub downgrade_second : List Statement
downgrade_second = drop_index "idx_delivery_log_notification_id" ∷ drop_table "delivery_log" ∷ []

abbrev pub upgrade_third : List Statement
upgrade_third =
    create_table read_receipts_table
    ∷ create_index receipts_notification_index
    ∷ create_index receipts_user_index
    ∷ []

abbrev pub downgrade_third : List Statement
downgrade_third =
    drop_index "idx_read_receipts_user_id"
    ∷ drop_index "idx_read_receipts_notification_id"
    ∷ drop_table "read_receipts"
    ∷ []

abbrev pub upgrade : Revision → List Statement
upgrade first = upgrade_first
upgrade second = upgrade_second
upgrade third = upgrade_third

abbrev pub downgrade : Revision → List Statement
downgrade first = downgrade_first
downgrade second = downgrade_second
downgrade third = downgrade_third

-- the revisions that lead to one, the oldest first; each step of the fuel goes one back, and there are
-- three
abbrev pub history : ℕ → Option Revision → List Revision
history zero v = []
history (suc n) none = []
history (suc n) (some v) = history n (down_revision v) ++ v ∷ []

module _ (db : Database) where
  abbrev pub then_run : Option db.State → (db.State → Option db.State) → Option db.State
  then_run none k = none
  then_run (some s) k = k s

  abbrev pub run : List Statement → db.State → Option db.State
  run [] s = some s
  run (x ∷ xs) s = then_run (db.execute x s) (λ s'. run xs s')
