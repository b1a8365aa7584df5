-- ===== src/Alembic/Versions/RoundTrip.antt =====
-- A downgrade takes back what the upgrade did.
use text.Mathlib.TextPositions.{eq_refl}
use mathlib.Core.List.{append_assoc, append-nil}
use realtime_notification_pl.Prelude.{
  String, ◌≡◌, refl, sym, ap, ◌∙◌, Bool-cases, inl, inr, Option, none, some, List, [], ◌∷◌, ◌++◌,
  str_eq, eq_iff, Option-cases, if◌then◌else◌,
}
use realtime_notification_pl.Prelude.Lists.{All}
use realtime_notification_pl.Ddl.{
  Table, Index, Statement, Database, create_table, create_index, drop_index, drop_table, off_table,
}
use realtime_notification_pl.Alembic.Versions.{
  Revision, first, second, third, upgrade, downgrade, then_run, run,
}

-- the statement that takes a creation back
abbrev pub undo : Statement → Statement
undo (create_table t) = drop_table t.name
undo (create_index i) = drop_index i.name
undo x = x

abbrev pub undo_all : List Statement → List Statement
undo_all [] = []
undo_all (x ∷ xs) = undo_all xs ++ undo x ∷ []

abbrev pub Creates : Statement → Type 0
Creates (create_table t) = Unit
Creates (create_index i) = Unit
Creates _ = ⊥

-- the revisions one after the other, and back
abbrev pub upgrades : List Revision → List Statement
upgrades [] = []
upgrades (v ∷ vs) = upgrade v ++ upgrades vs

abbrev pub downgrades : List Revision → List Statement
downgrades [] = []
downgrades (v ∷ vs) = downgrades vs ++ downgrade v

undo_all-append : (xs ys : List Statement) → undo_all (xs ++ ys) ≡ undo_all ys ++ undo_all xs
undo_all-append [] ys = sym (append-nil (undo_all ys))
undo_all-append (x ∷ xs) ys =
    ap (λ zs. zs ++ undo x ∷ []) (undo_all-append xs ys)
    ∙ append_assoc (undo_all ys) (undo_all xs) (undo x ∷ [])

downgrade_lem : (v : Revision) → undo_all (upgrade v) ≡ downgrade v
downgrade_lem first = refl
downgrade_lem second = refl
downgrade_lem third = refl

downgrades_lem : (vs : List Revision) → undo_all (upgrades vs) ≡ downgrades vs
downgrades_lem [] = refl
downgrades_lem (v ∷ vs) =
    undo_all-append (upgrade v) (upgrades vs) ∙ rw (downgrades_lem vs, downgrade_lem v) refl

All-append :
    (P : Statement → Type 0) (xs ys : List Statement) → All P xs → All P ys → All P (xs ++ ys)
All-append P [] ys h k = k
All-append P (x ∷ xs) ys h k = (h.0, All-append P xs ys h.1 k)

upgrade-Creates : (v : Revision) → All Creates (upgrade v)
upgrade-Creates first = (tt, (tt, tt))
upgrade-Creates second = (tt, (tt, tt))
upgrade-Creates third = (tt, (tt, (tt, tt)))

pub upgrades-Creates : (vs : List Revision) → All Creates (upgrades vs)
upgrades-Creates [] = tt
upgrades-Creates (v ∷ vs) =
    All-append Creates (upgrade v) (upgrades vs) (upgrade-Creates v) (upgrades-Creates vs)

-- what was added under a name that was free, and taken away again
restored :
    {A : Type 0} (name n : String) (f : String → Option A) (o : Option A)
    → f name ≡ none
    → (if str_eq name n then none else if str_eq name n then o else f n) ≡ f n
restored name n f o h = elim (Bool-cases (str_eq name n)) [
  | inl e ↦ rw e (sym (ap f (sym ((eq_iff name n).0 e)) ∙ h))
  | inr e ↦ rw e refl
]

module _ (db : Database) where
  -- with the same tables and indexes
  pub record Same (s s' : db.State) : Type 0 where
    pub tables : (n : String) → db.table_of s' n ≡ db.table_of s n
    pub indexes : (n : String) → db.index_of s' n ≡ db.index_of s n

  run-append :
      (xs ys : List Statement) (s : db.State)
      → run db (xs ++ ys) s ≡ then_run db (run db xs s) (run db ys)
  run-append [] ys s = refl
  run-append (x ∷ xs) ys s = elim (Option-cases (db.execute x s)) [
    | inl e ↦ rw e refl
    | inr (s', e) ↦ rw e (run-append xs ys s')
  ]

  -- no index is on a table that is not there
  off_missing :
      (name : String) (s : db.State) (n : String)
      → db.table_of s name ≡ none
      → off_table name (db.index_of s n) ≡ db.index_of s n
  off_missing name s n h = elim (Option-cases (db.index_of s n)) [
    | inl e ↦ rw e refl
    | inr (i, e) ↦ elim (Bool-cases (str_eq i.table name)) [
      | inl f ↦ absurd (db.index_has_table s n i e (rw ((eq_iff i.table name).0 f) h))
      | inr f ↦ rw e (rw f refl)
    ]
  ]

  abbrev Undone : Statement → db.State → db.State → Type 0
  Undone x s s1 = (s0 : db.State) × (db.execute (undo x) s1 ≡ some s0) × Same s s0

  undo_table :
      (t : Table) (s s' s1 : db.State)
      → db.execute (create_table t) s ≡ some s'
      → Same s' s1
      → Undone (create_table t) s s1
  undo_table t s s' s1 made same =
      let (missing, tables, indexes) = db.table_created t s s' made in
      let here : db.table_of s1 t.name ≡ some t =
        same.tables t.name ∙ tables t.name ∙ rw (eq_refl t.name) refl in
      let (s0, gone, tables0, indexes0) = db.table_dropped t.name s1 (λ e. cc (here, e)) in
      (
        s0,
        gone,
        record {
          tables = λ n.
              tables0 n
              ∙ ap (λ o. if str_eq t.name n then none else o) (same.tables n ∙ tables n)
              ∙ restored t.name n (db.table_of s) (some t) missing;
          indexes = λ n.
              indexes0 n
              ∙ ap (off_table t.name) (same.indexes n ∙ indexes n)
              ∙ off_missing t.name s n missing;
        },
      )

  undo_index :
      (i : Index) (s s' s1 : db.State)
      → db.execute (create_index i) s ≡ some s'
      → Same s' s1
      → Undone (create_index i) s s1
  undo_index i s s' s1 made same =
      let (missing, tables, indexes) = db.index_created i s s' made in
      let here : db.index_of s1 i.name ≡ some i =
        same.indexes i.name ∙ indexes i.name ∙ rw (eq_refl i.name) refl in
      let (s0, gone, tables0, indexes0) = db.index_dropped i.name s1 (λ e. cc (here, e)) in
      (
        s0,
        gone,
        record {
          tables = λ n. tables0 n ∙ same.tables n ∙ tables n;
          indexes = λ n.
              indexes0 n
              ∙ ap (λ o. if str_eq i.name n then none else o) (same.indexes n ∙ indexes n)
              ∙ restored i.name n (db.index_of s) (some i) missing;
        },
      )

  undo_lem :
      (x : Statement) (s s' s1 : db.State)
      → Creates x
      → db.execute x s ≡ some s'
      → Same s' s1
      → Undone x s s1
  undo_lem (create_table t) s s' s1 c made same = undo_table t s s' s1 made same
  undo_lem (create_index i) s s' s1 c made same = undo_index i s s' s1 made same
  undo_lem (drop_index name) s s' s1 c made same = absurd c
  undo_lem (drop_table name) s s' s1 c made same = absurd c

  undo_all_lem :
      (xs : List Statement) (s s' : db.State)
      → All Creates xs
      → run db xs s ≡ some s'
      → (s0 : db.State) × (run db (undo_all xs) s' ≡ some s0) × Same s s0
  undo_all_lem [] s s' c made =
      let same : s ≡ s' = cc made in
      rw (← same) (s, refl, record { tables = λ n. refl; indexes = λ n. refl })
  undo_all_lem (x ∷ xs) s s' c made = elim (Option-cases (db.execute x s)) [
    | inl e ↦ absurd (cc (rw e at made))
    | inr (s1, e) ↦
        let (s2, taken, same) = undo_all_lem xs s1 s' c.1 (rw e at made) in
        let (s0, gone, back) = undo_lem x s s1 s2 c.0 e same in
        (s0, run-append (undo_all xs) (undo x ∷ []) s' ∙ rw (taken, gone) refl, back)
  ]

  -- When the server has accepted the upgrades of some revisions, one after the other, it accepts
  -- their downgrades in the opposite order, and then every table and every index is as before, and
  -- no other is there.
  pub downgrades-upgrades :
      (vs : List Revision) (s s' : db.State)
      → run db (upgrades vs) s ≡ some s'
      → (s0 : db.State) × (run db (downgrades vs) s' ≡ some s0) × Same s s0
  downgrades-upgrades vs s s' made =
      rw (← downgrades_lem vs) (undo_all_lem (upgrades vs) s s' (upgrades-Creates vs) made)
