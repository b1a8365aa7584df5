-- ===== src/Alembic/Versions/Models.antt =====
-- The tables of app/db/models.py, and what the migrations make of them.
use realtime_notification_pl.Prelude.{
  String, ◌≡◌, refl, sym, ◌∙◌, true, false, Option, none, some, List, [], ◌∷◌, map, str_eq,
  Option-cases, inl, inr, if◌then◌else◌,
}
use realtime_notification_pl.Prelude.Lists.{All}
use realtime_notification_pl.Ddl.{
  Column, Table, Index, Statement, Database, integer, big_integer, uuid, jsonb, timestamp, boolean,
  varchar, create_table, create_index, drop_index, drop_table, ColumnType,
}
use realtime_notification_pl.Alembic.Versions.{third, history, run}
use realtime_notification_pl.Alembic.Versions.RoundTrip.{Creates, upgrades, upgrades-Creates}

-- `Mapped[...]`: not null, unless the annotation is optional
abbrev pub mapped : String → ColumnType → Column
mapped name type = record {
  name = name;
  type = type;
  nullable = false;
  primary_key = false;
  server_default = none;
}

-- `Mapped[int] = mapped_column(primary_key=True, autoincrement=True)`
abbrev pub model_id : Column
model_id = record (mapped "id" integer) { primary_key = true }

-- `server_default=func.now()`
abbrev pub model_now : String → Column
model_now name = record (mapped name timestamp) { server_default = some "now()" }

-- the default of delivered_live is the client's
abbrev pub notification_model : Table
notification_model = record {
  name = "notifications";
  columns =
      model_id
      ∷ mapped "notification_id" uuid
      ∷ mapped "user_id" uuid
      ∷ mapped "type" (varchar 50)
      ∷ mapped "payload" jsonb
      ∷ model_now "created_at"
      ∷ mapped "delivered_live" boolean
      ∷ record (mapped "read_at" timestamp) { nullable = true }
      ∷ [];
  unique = "notification_id" ∷ [];
}

abbrev pub notification_index : Index
notification_index = record {
  name = "idx_notifications_user_unread";
  table = "notifications";
  columns = "user_id" ∷ "created_at" ∷ [];
  condition = some "read_at IS NULL";
}

abbrev pub delivery_log_model : Table
delivery_log_model = record {
  name = "delivery_log";
  columns =
      model_id
      ∷ mapped "notification_id" uuid
      ∷ mapped "instance_id" (varchar 100)
      ∷ model_now "delivered_at"
      ∷ [];
  unique = [];
}

abbrev pub on_column : String → String → String → Index
on_column name table column = record {
  name = name;
  table = table;
  columns = column ∷ [];
  condition = none;
}

abbrev pub delivery_log_model_index : Index
delivery_log_model_index =
    on_column "idx_delivery_log_notification_id" "delivery_log" "notification_id"

abbrev pub read_receipt_model : Table
read_receipt_model = record {
  name = "read_receipts";
  columns =
      model_id ∷ mapped "notification_id" uuid ∷ mapped "user_id" uuid ∷ model_now "read_at" ∷ [];
  unique = [];
}

abbrev pub read_receipt_indexes : List Index
read_receipt_indexes =
    on_column "idx_read_receipts_notification_id" "read_receipts" "notification_id"
    ∷ on_column "idx_read_receipts_user_id" "read_receipts" "user_id"
    ∷ []

abbrev pub models : List Table
models = notification_model ∷ delivery_log_model ∷ read_receipt_model ∷ []

abbrev pub model_indexes : List Index
model_indexes = notification_index ∷ delivery_log_model_index ∷ read_receipt_indexes

-- how a column of the database differs from the model's: a primary key is wider, and
-- delivered_live has a default of the server
abbrev pub migrated : Column → Column
migrated c = record c {
  type = if c.primary_key then big_integer else c.type;
  server_default = if str_eq c.name "delivered_live" then some "false" else c.server_default;
}

-- the last creation of a name
abbrev table_after : String → List Statement → Option Table → Option Table
table_after n [] o = o
table_after n (create_table t ∷ xs) o = table_after n xs (if str_eq t.name n then some t else o)
table_after n (x ∷ xs) o = table_after n xs o

abbrev index_after : String → List Statement → Option Index → Option Index
index_after n [] o = o
index_after n (create_index i ∷ xs) o = index_after n xs (if str_eq i.name n then some i else o)
index_after n (x ∷ xs) o = index_after n xs o

module _ (db : Database) where
  created :
      (x : Statement) (xs : List Statement) (s s1 : db.State) (n : String)
      → Creates x
      → db.execute x s ≡ some s1
      → (table_after n (x ∷ xs) (db.table_of s n) ≡ table_after n xs (db.table_of s1 n))
        × (index_after n (x ∷ xs) (db.index_of s n) ≡ index_after n xs (db.index_of s1 n))
  created (create_table t) xs s s1 n c made =
      let (_, tables, indexes) = db.table_created t s s1 made in
      rw (tables n, indexes n) (refl, refl)
  created (create_index i) xs s s1 n c made =
      let (_, tables, indexes) = db.index_created i s s1 made in
      rw (tables n, indexes n) (refl, refl)
  created (drop_index name) xs s s1 n c made = absurd c
  created (drop_table name) xs s s1 n c made = absurd c

  run_creations :
      (xs : List Statement) (s s' : db.State) (n : String)
      → All Creates xs
      → run db xs s ≡ some s'
      → (db.table_of s' n ≡ table_after n xs (db.table_of s n))
        × (db.index_of s' n ≡ index_after n xs (db.index_of s n))
  run_creations [] s s' n c made = let same : s ≡ s' = cc made in rw (← same) (refl, refl)
  run_creations (x ∷ xs) s s' n c made = elim (Option-cases (db.execute x s)) [
    | inl e ↦ absurd (cc (rw e at made))
    | inr (s1, e) ↦
        let (tables, indexes) = created x xs s s1 n c.0 e in
        let (tables', indexes') = run_creations xs s1 s' n c.1 (rw e at made) in
        (tables' ∙ sym tables, indexes' ∙ sym indexes)
  ]

  -- After the upgrades that lead to the third revision, from whatever the server accepts them on,
  -- the tables and the indexes of the models are there, with the columns of the models in their
  -- order, but for two kinds: a primary key is BIGINT instead of INTEGER, and delivered_live has a
  -- default of the server.
  pub upgraded_models :
      (s s' : db.State)
      → run db (upgrades (history 3 (some third))) s ≡ some s'
      → All
          (λ m. db.table_of s' m.name ≡ some (record m { columns = map migrated m.columns }))
          models
        × All (λ i. db.index_of s' i.name ≡ some i) model_indexes
  upgraded_models s s' made =
      let vs = history 3 (some third) in
      let at = λ (n : String). run_creations (upgrades vs) s s' n (upgrades-Creates vs) made in
      (
        ((at "notifications").0, ((at "delivery_log").0, ((at "read_receipts").0, tt))),
        (
          (at "idx_notifications_user_unread").1,
          (
            (at "idx_delivery_log_notification_id").1,
            ((at "idx_read_receipts_notification_id").1, ((at "idx_read_receipts_user_id").1, tt)),
          ),
        ),
      )
