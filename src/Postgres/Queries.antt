-- ===== src/Postgres/Queries.antt =====
-- What a SELECT with a limit returns, in terms of the table.
use mathlib.Core.List.{Mem}
use mathlib.Core.List.Perm
use realtime_notification_pl.Prelude.{ℕ, ◌≤◌, ◌<◌, zero, suc, ◌≡◌, Bool, true, List, [], ◌∷◌, arith}
use realtime_notification_pl.Prelude.Lists.{
  length, take, count, All, take_all, length-filter, length-perm, length-take-le, take_short,
  All-take, All-of_mem, mem-filter-true, mem-filter_of_mem, mem_of_mem-filter,
}
use realtime_notification_pl.Postgres.{Direction, IsOrdered, Selects}

module _ {A : Type 0} (dir : Direction) (key : A → ℕ) where
  pub IsOrdered-take : (n : ℕ) (xs : List A) → IsOrdered dir key xs → IsOrdered dir key (take n xs)
  IsOrdered-take zero xs h = tt
  IsOrdered-take (suc n) [] h = tt
  IsOrdered-take (suc n) (x ∷ xs) h = (All-take _ n xs h.0, IsOrdered-take n xs h.1)

  -- The answer holds only matching rows, in order and at most `limit`; if it is shorter than
  -- that, it holds every matching row.
  pub record Answers (holds : A → Type 0) (limit : ℕ) (rows out : List A) : Type 0 where
    pub only : All holds out
    pub from_table : All (λ x. Mem x rows) out
    pub ordered : IsOrdered dir key out
    pub bounded : length out ≤ limit
    pub complete : length out < limit → (x : A) → Mem x rows → holds x → Mem x out

  -- a limit that every matching row fits leaves none out
  pub mem-take :
      (q : A → Bool) (limit : ℕ) (rows out : List A)
      → Selects q dir key rows out
      → count q rows ≤ limit
      → (x : A) → Mem x rows
      → q x ≡ true
      → Mem x (take limit out)
  mem-take q limit rows out sel few x m h =
      rw (take_all limit out (omega (arith, length-perm sel.perm, length-filter q rows)))
        ((Perm.mem_iff sel.perm).1 (mem-filter_of_mem q x rows m h))

  pub Answers-take :
      (q : A → Bool) (holds : A → Type 0)
      → ((x : A) → q x ≡ true → holds x)
      → ((x : A) → holds x → q x ≡ true)
      → (limit : ℕ) (rows out : List A) → Selects q dir key rows out
      → Answers holds limit rows (take limit out)
  Answers-take q holds to from limit rows out sel = record {
    only = All-take holds limit out (
        All-of_mem holds out
          (λ x m. to x (mem-filter-true q x rows ((Perm.mem_iff sel.perm).0 m))));
    from_table =
        All-take (λ x. Mem x rows) limit out
          (All-of_mem (λ x. Mem x rows) out
            (λ x m. mem_of_mem-filter q x rows ((Perm.mem_iff sel.perm).0 m)));
    ordered = IsOrdered-take limit out sel.ordered;
    bounded = length-take-le limit out;
    complete = λ short x m h.
        rw (take_short limit out short)
          ((Perm.mem_iff sel.perm).1 (mem-filter_of_mem q x rows m (from x h)));
  }
