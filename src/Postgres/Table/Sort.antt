-- ===== src/Postgres/Table/Sort.antt =====
-- Insertion sort, and the description of ORDER BY.
use mathlib.Core.List.{Perm}
use mathlib.Core.List.Perm
use realtime_notification_pl.Prelude.{
  ℕ, ◌≡◌, Bool, true, false, List, [], ◌∷◌, inl, inr, arith, leb, Bool-cases, if◌then◌else◌,
}
use realtime_notification_pl.Prelude.Lists.{filter, All}
use realtime_notification_pl.Postgres.{Direction, asc, desc, Before, IsOrdered, Selects}

abbrev pub before : Direction → ℕ → ℕ → Bool
before asc a b = leb a b
before desc a b = leb b a

before-true : (dir : Direction) (a b : ℕ) → before dir a b ≡ true → Before dir a b
before-true asc a b h = ground arith
before-true desc a b h = ground arith

before-false : (dir : Direction) (a b : ℕ) → before dir a b ≡ false → Before dir b a
before-false asc a b h = ground arith
before-false desc a b h = ground arith

Before-trans : (dir : Direction) (a b c : ℕ) → Before dir a b → Before dir b c → Before dir a c
Before-trans asc a b c h k = omega arith
Before-trans desc a b c h k = omega arith

module _ {A : Type 0} where
  abbrev pub place : Direction → (A → ℕ) → A → List A → List A
  place dir key x [] = x ∷ []
  place dir key x (y ∷ ys) =
      if before dir (key x) (key y) then x ∷ y ∷ ys else y ∷ place dir key x ys

  abbrev pub sort : Direction → (A → ℕ) → List A → List A
  sort dir key [] = []
  sort dir key (x ∷ xs) = place dir key x (sort dir key xs)

module _ {A : Type 0} (dir : Direction) (key : A → ℕ) where
  place-perm : (x : A) (xs : List A) → Perm (place dir key x xs) (x ∷ xs)
  place-perm x [] = Perm.refl (x ∷ [])
  place-perm x (y ∷ ys) = elim (Bool-cases (before dir (key x) (key y))) [
    | inl e ↦ rw e (Perm.refl (x ∷ y ∷ ys))
    | inr e ↦ rw e (Perm.trans (Perm.cons y (place-perm x ys)) (Perm.swap x y ys))
  ]

  sort-perm : (xs : List A) → Perm (sort dir key xs) xs
  sort-perm [] = Perm.refl []
  sort-perm (x ∷ xs) = Perm.trans (place-perm x (sort dir key xs)) (Perm.cons x (sort-perm xs))

  abbrev Above : A → List A → Type 0
  Above a = All (λ y. Before dir (key a) (key y))

  Above-trans : (a b : A) (xs : List A) → Before dir (key a) (key b) → Above b xs → Above a xs
  Above-trans a b [] h k = tt
  Above-trans a b (x ∷ xs) h k =
      (Before-trans dir (key a) (key b) (key x) h k.0, Above-trans a b xs h k.1)

  Above-place :
      (a x : A) (xs : List A)
      → Before dir (key a) (key x)
      → Above a xs
      → Above a (place dir key x xs)
  Above-place a x [] h k = (h, tt)
  Above-place a x (y ∷ ys) h k = elim (Bool-cases (before dir (key x) (key y))) [
    | inl e ↦ rw e (h, k)
    | inr e ↦ rw e (k.0, Above-place a x ys h k.1)
  ]

  place-IsOrdered :
      (x : A) (xs : List A) → IsOrdered dir key xs → IsOrdered dir key (place dir key x xs)
  place-IsOrdered x [] h = (tt, tt)
  place-IsOrdered x (y ∷ ys) h = elim (Bool-cases (before dir (key x) (key y))) [
    | inl e ↦
        let first = before-true dir (key x) (key y) e in
        rw e ((first, Above-trans x y ys first h.0), h)
    | inr e ↦
        rw e (Above-place y x ys (before-false dir (key x) (key y) e) h.0, place-IsOrdered x ys h.1)
  ]

  sort-IsOrdered : (xs : List A) → IsOrdered dir key (sort dir key xs)
  sort-IsOrdered [] = tt
  sort-IsOrdered (x ∷ xs) = place-IsOrdered x (sort dir key xs) (sort-IsOrdered xs)

pub sort-Selects :
    {A : Type 0} (p : A → Bool) (dir : Direction) (key : A → ℕ) (rows : List A)
    → Selects p dir key rows (sort dir key (filter p rows))
sort-Selects p dir key rows = record {
  perm = sort-perm dir key (filter p rows);
  ordered = sort-IsOrdered dir key (filter p rows);
}
