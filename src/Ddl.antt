-- ===== src/Ddl.antt =====
-- The statements that the migrations issue through Alembic, and the database that runs them: an
-- interface with what PostgreSQL documents of CREATE and DROP. It is a parameter of the model.
pub mod Catalog
use realtime_notification_pl.Prelude.{
  ℕ, String, ◌≡◌, ◌≢◌, Bool, Option, none, some, List, str_eq, if◌then◌else◌,
}

pub data ColumnType : Type 0 where
  integer big_integer uuid jsonb timestamp boolean : ColumnType
  varchar : ℕ → ColumnType

pub record Column : Type 0 where
  pub name : String
  pub type : ColumnType
  pub nullable : Bool
  pub primary_key : Bool
  pub server_default : Option String

pub record Table : Type 0 where
  pub name : String
  pub columns : List Column
  -- the columns of UNIQUE constraints
  pub unique : List String

pub record Index : Type 0 where
  pub name : String
  pub table : String
  pub columns : List String
  -- the WHERE of a partial index
  pub condition : Option String

pub data Statement : Type 0 where
  create_table : Table → Statement
  create_index : Index → Statement
  -- by the name of the index
  drop_index drop_table : String → Statement

-- what becomes of an index when a table is dropped
abbrev pub off_table : String → Option Index → Option Index
off_table name none = none
off_table name (some i) = if str_eq i.table name then none else some i

pub record Database : Type 1 where
  pub State : Type 0
  pub table_of : State → String → Option Table
  -- the indexes that CREATE INDEX has made
  pub index_of : State → String → Option Index
  -- nothing where the server answers with an error
  pub execute : Statement → State → Option State
  pub index_has_table :
      (s : State) (name : String) (i : Index) → index_of s name ≡ some i → table_of s i.table ≢ none
  pub table_created :
      (t : Table) (s s' : State)
      → execute (create_table t) s ≡ some s'
      → (table_of s t.name ≡ none)
        × ((n : String) → table_of s' n ≡ (if str_eq t.name n then some t else table_of s n))
        × ((n : String) → index_of s' n ≡ index_of s n)
  pub index_created :
      (i : Index) (s s' : State)
      → execute (create_index i) s ≡ some s'
      → (index_of s i.name ≡ none)
        × ((n : String) → table_of s' n ≡ table_of s n)
        × ((n : String) → index_of s' n ≡ (if str_eq i.name n then some i else index_of s n))
  pub index_dropped :
      (name : String) (s : State)
      → index_of s name ≢ none
      → (s' : State) × (execute (drop_index name) s ≡ some s')
        × ((n : String) → table_of s' n ≡ table_of s n)
        × ((n : String) → index_of s' n ≡ (if str_eq name n then none else index_of s n))
  -- its indexes go with it
  pub table_dropped :
      (name : String) (s : State)
      → table_of s name ≢ none
      → (s' : State) × (execute (drop_table name) s ≡ some s')
        × ((n : String) → table_of s' n ≡ (if str_eq name n then none else table_of s n))
        × ((n : String) → index_of s' n ≡ off_table name (index_of s n))
