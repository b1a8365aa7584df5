-- ===== src/Ddl/Catalog.antt =====
-- A value of the parameter, for tests and witnesses: what is there, by name.
use realtime_notification_pl.Prelude.{
  String, ◌≡◌, ◌≢◌, refl, ap, Bool-cases, inl, inr, Option, none, some, str_eq, eq_iff, arith,
  if◌then◌else◌, Option-cases,
}
use realtime_notification_pl.Ddl.{
  Table, Index, Statement, create_table, create_index, drop_index, drop_table, off_table, Database,
}

-- an index is shown while its table is there
pub record Shelf : Type 0 where
  pub tables : String → Option Table
  pub indexes : String → Option Index

abbrev pub if_there : Option Table → Index → Option Index
if_there none i = none
if_there (some t) i = some i

abbrev pub shown : (String → Option Table) → Option Index → Option Index
shown tables none = none
shown tables (some i) = if_there (tables i.table) i

abbrev pub put : {A : Type 0} → String → Option A → (String → Option A) → String → Option A
put name v f n = if str_eq name n then v else f n

abbrev pub index_in : Shelf → String → Option Index
index_in s n = shown s.tables (s.indexes n)

abbrev pub with_table : Table → Shelf → Shelf
with_table t s = record {
  tables = put t.name (some t) s.tables;
  indexes = λ n. off_table t.name (s.indexes n);
}

abbrev pub with_index : Index → Shelf → Shelf
with_index i s = record s { indexes = put i.name (some i) s.indexes }

abbrev pub add_table : Table → Shelf → Option Table → Option Shelf
add_table t s (some old) = none
add_table t s none = some (with_table t s)

abbrev pub add_index : Index → Shelf → Option Table → Option Index → Option Shelf
add_index i s none o = none
add_index i s (some t) (some old) = none
add_index i s (some t) none = some (with_index i s)

abbrev pub take_index : String → Shelf → Option Index → Option Shelf
take_index name s none = none
take_index name s (some i) = some (record s { indexes = put name none s.indexes })

abbrev pub take_table : String → Shelf → Option Table → Option Shelf
take_table name s none = none
take_table name s (some t) = some (record s { tables = put name none s.tables })

abbrev pub execute : Statement → Shelf → Option Shelf
execute (create_table t) s = add_table t s (s.tables t.name)
execute (create_index i) s = add_index i s (s.tables i.table) (index_in s i.name)
execute (drop_index name) s = take_index name s (index_in s name)
execute (drop_table name) s = take_table name s (s.tables name)

pub shown-table :
    (tables : String → Option Table) (o : Option Index) (i : Index)
    → shown tables o ≡ some i
    → tables i.table ≢ none
shown-table tables none i h = absurd (cc h)
shown-table tables (some j) i h = elim (Option-cases (tables j.table)) [
  | inl e ↦ absurd (cc (h, ap (λ o. if_there o j) e))
  | inr (t, e) ↦ ground (arith, h, e)
]

shown-add :
    (t : Table) (tables : String → Option Table) (o : Option Index)
    → tables t.name ≡ none
    → shown (put t.name (some t) tables) (off_table t.name o) ≡ shown tables o
shown-add t tables none h = refl
shown-add t tables (some j) h = ground (arith, h, eq_iff j.table t.name, eq_iff t.name j.table)

shown-take :
    (name : String) (tables : String → Option Table) (o : Option Index)
    → shown (put name none tables) o ≡ off_table name (shown tables o)
shown-take name tables none = refl
shown-take name tables (some j) = elim (Option-cases (tables j.table)) [
  | inl e ↦ rw e (ground (arith, eq_iff name j.table, eq_iff j.table name))
  | inr (t, e) ↦ rw e (ground (arith, eq_iff name j.table, eq_iff j.table name))
]

shown-put :
    (name : String) (tables : String → Option Table) (indexes : String → Option Index)
    (o : Option Index) (n : String)
    → shown tables o ≡ o
    → shown tables (put name o indexes n) ≡ (if str_eq name n then o else shown tables (indexes n))
shown-put name tables indexes o n h = elim (Bool-cases (str_eq name n)) [
  | inl e ↦ rw e h
  | inr e ↦ rw e refl
]

pub added :
    (t : Table) (s s' : Shelf) (o : Option Table)
    → s.tables t.name ≡ o
    → add_table t s o ≡ some s'
    → (s.tables t.name ≡ none)
      × ((n : String) → s'.tables n ≡ (if str_eq t.name n then some t else s.tables n))
      × ((n : String) → index_in s' n ≡ index_in s n)
added t s s' (some old) e h = absurd (cc h)
added t s s' none e h =
    let same : with_table t s ≡ s' = cc h in
    rw (← same) (e, λ n. refl, λ n. shown-add t s.tables (s.indexes n) e)

pub indexed :
    (i : Index) (s s' : Shelf) (t : Option Table) (o : Option Index)
    → s.tables i.table ≡ t
    → index_in s i.name ≡ o
    → add_index i s t o ≡ some s'
    → (index_in s i.name ≡ none)
      × ((n : String) → s'.tables n ≡ s.tables n)
      × ((n : String) → index_in s' n ≡ (if str_eq i.name n then some i else index_in s n))
indexed i s s' none o d e h = absurd (cc h)
indexed i s s' (some t) (some old) d e h = absurd (cc h)
indexed i s s' (some t) none d e h =
    let same : with_index i s ≡ s' = cc h in
    rw (← same) (e, λ n. refl, λ n. shown-put i.name s.tables s.indexes (some i) n (rw d refl))

pub taken :
    (name : String) (s : Shelf) (o : Option Index)
    → index_in s name ≡ o
    → o ≢ none
    → (s' : Shelf) × (take_index name s o ≡ some s')
      × ((n : String) → s'.tables n ≡ s.tables n)
      × ((n : String) → index_in s' n ≡ (if str_eq name n then none else index_in s n))
taken name s none e h = absurd (h refl)
taken name s (some i) e h = (
  record s { indexes = put name none s.indexes },
  refl,
  λ n. refl,
  λ n. shown-put name s.tables s.indexes none n refl,
)

pub dropped :
    (name : String) (s : Shelf) (o : Option Table)
    → s.tables name ≡ o
    → o ≢ none
    → (s' : Shelf) × (take_table name s o ≡ some s')
      × ((n : String) → s'.tables n ≡ (if str_eq name n then none else s.tables n))
      × ((n : String) → index_in s' n ≡ off_table name (index_in s n))
dropped name s none e h = absurd (h refl)
dropped name s (some t) e h = (
  record s { tables = put name none s.tables },
  refl,
  λ n. refl,
  λ n. shown-take name s.tables (s.indexes n),
)

abbrev pub catalog : Database
catalog = record {
  State = Shelf;
  table_of = λ s. s.tables;
  index_of = index_in;
  execute = execute;
  index_has_table = λ s name i h. shown-table s.tables (s.indexes name) i h;
  table_created = λ t s s' h. added t s s' (s.tables t.name) refl h;
  index_created = λ i s s' h. indexed i s s' (s.tables i.table) (index_in s i.name) refl refl h;
  index_dropped = λ name s h. taken name s (index_in s name) refl h;
  table_dropped = λ name s h. dropped name s (s.tables name) refl h;
}
