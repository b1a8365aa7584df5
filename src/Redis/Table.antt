-- ===== src/Redis/Table.antt =====
-- A table of values with the seconds that each has left: a value of the interface, at which the
-- witnesses are evaluated. It shows that the documented behaviour can be met.
use realtime_notification_pl.Prelude.{
  ℕ, ◌+◌, ◌-◌, String, ◌≡◌, refl, false, Option, none, some, arith, ltb, str_eq, eq_iff,
  if◌then◌else◌,
}
use realtime_notification_pl.Redis.{Value, plain, integer, bump, Redis}

pub record Entry : Type 0 where
  pub value : Value
  pub left : Option ℕ

abbrev pub Table : Type 0
Table = String → Option Entry

abbrev pub live : ℕ → Option ℕ → Value → Option Value
live d none v = some v
live d (some t) v = if ltb d t then some v else none

abbrev pub view : ℕ → Option Entry → Option Value
view d none = none
view d (some e) = live d e.left e.value

abbrev pub find : Table → ℕ → String → Option Value
find s d k = view d (s k)

abbrev pub write : String → Option Entry → Table → Table
write k e s j = if str_eq k j then e else s j

abbrev pub hold : Option Value → Option ℕ → Option Entry
hold none t = none
hold (some v) t = some (record { value = v; left = t })

abbrev pub age : ℕ → Option Entry → Option Entry
age n none = none
age n (some e) = some (record e { left = elim e.left [ none ↦ none | some t ↦ some (t - n) ] })

abbrev pub lifetime : Option Entry → Option ℕ
lifetime none = none
lifetime (some e) = e.left

abbrev pub count : String → Table → Option Value → Option ℕ × Table
count k s none = (some 1, write k (some (record { value = integer 1; left = none })) s)
count k s (some (plain t)) = (none, s)
count k s (some (integer n)) =
    (some (n + 1), write k (some (record { value = integer (n + 1); left = lifetime (s k) })) s)

pub find-elapse : (n d : ℕ) (e : Option Entry) → view d (age n e) ≡ view (n + d) e
find-elapse n d e = ground arith

pub find-set_ex :
    (k : String) (v : Value) (ttl : ℕ) (s : Table) (d : ℕ) (j : String)
    → find (write k (some (record { value = v; left = some ttl })) s) d j
      ≡ (if str_eq k j then if ltb d ttl then some v else none else find s d j)
find-set_ex k v ttl s d j = ground arith

pub find-expire :
    (k : String) (ttl : ℕ) (s : Table) (d : ℕ) (j : String)
    → find (write k (hold (find s 0 k) (some ttl)) s) d j
      ≡ (if str_eq k j then if ltb d ttl then find s 0 j else none else find s d j)
find-expire k ttl s d j = ground (arith, eq_iff k j)

pub find-write_value :
    (k : String) (v : Value) (s : Table) (d : ℕ) (j : String)
    → find (write k (some (record { value = v; left = none })) s) d j
      ≡ (if str_eq k j then some v else find s d j)
find-write_value k v s d j = ground arith

pub find-delete :
    (k : String) (s : Table) (d : ℕ) (j : String)
    → find (write k none s) d j ≡ (if str_eq k j then none else find s d j)
find-delete k s d j = ground arith

pub incr_missing_lem :
    (k : String) (s : Table) → find s 0 k ≡ none → (count k s (find s 0 k)).0 ≡ some 1
incr_missing_lem k s h = rw h

pub find-count_missing :
    (k : String) (s : Table) (d : ℕ) (j : String)
    → find s 0 k ≡ none
    → find (count k s (find s 0 k)).1 d j ≡ (if str_eq k j then some (integer 1) else find s d j)
find-count_missing k s d j h = rw h (find-write_value k (integer 1) s d j)

pub incr_counter_lem :
    (k : String) (s : Table) (n : ℕ)
    → find s 0 k ≡ some (integer n)
    → (count k s (find s 0 k)).0 ≡ some (n + 1)
incr_counter_lem k s n h = rw h

-- a counter that is there now has the same number at every later time at which it is there
pub view-hold :
    (d n : ℕ) (e : Option Entry)
    → view 0 e ≡ some (integer n)
    → view d (some (record { value = integer (n + 1); left = lifetime e })) ≡ bump (view d e)
view-hold d n none h = cc
view-hold d n (some e) h = ground arith

pub find-count_counter :
    (k : String) (s : Table) (n d : ℕ) (j : String)
    → find s 0 k ≡ some (integer n)
    → find (count k s (find s 0 k)).1 d j ≡ (if str_eq k j then bump (find s d j) else find s d j)
find-count_counter k s n d j h = rw h (ground (arith, eq_iff k j, view-hold d n (s k) h))

pub count_ne :
    (k : String) (s : Table) (o : Option Value) (d : ℕ) (j : String)
    → str_eq k j ≡ false
    → find (count k s o).1 d j ≡ find s d j
count_ne k s none d j h = rw h
count_ne k s (some (plain t)) d j h = refl
count_ne k s (some (integer n)) d j h = rw h

abbrev pub table : Redis
table = record {
  State = Table;
  peek = find;
  set = λ k v. write k (some (record { value = v; left = none }));
  set_ex = λ k v ttl. write k (some (record { value = v; left = some ttl }));
  expire = λ k ttl s. write k (hold (find s 0 k) (some ttl)) s;
  delete = λ k. write k none;
  incr = λ k s. count k s (find s 0 k);
  elapse = λ n s k. age n (s k);
  peek-set = find-write_value;
  peek-set_ex = λ k v ttl s d j h. find-set_ex k v ttl s d j;
  peek-expire = λ k ttl s d j h. find-expire k ttl s d j;
  peek-delete = find-delete;
  peek-elapse = λ n s d j. find-elapse n d (s j);
  incr_missing = incr_missing_lem;
  peek-incr_missing = find-count_missing;
  incr_counter = λ k s n h small. incr_counter_lem k s n h;
  peek-incr_counter = λ k s n d j h small. find-count_counter k s n d j h;
  peek-incr_ne = λ k s. count_ne k s (find s 0 k);
}
