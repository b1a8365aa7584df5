-- ===== src/Prelude/Lists.antt =====
-- Lists measured by native numbers, under the library's names, and predicates over lists.
use Prim.Native.Nat.{ℕ, zero, suc, ◌≤◌, ◌<◌}
use mathlib.Core.Logic.Or
use mathlib.Core.Logic.{inl, inr, ∥∥₁_elim}
use mathlib.Core.List.{
  List, [], ◌∷◌, Mem, Mem-prop, not-mem-nil, mem-cons_self, mem-cons_of_mem, mem-cons,
}
use mathlib.Core.List.{Perm, Permᴰ}
use mathlib.Core.List.Permᴰ.{nil, cons, swap, trans}
use native.Mathlib.Nat.{ℕ_set}
use mathlib.Core.Path.{◌≡◌, refl, ap, ◌∙◌}
use mathlib.Core.Bool.{Bool, true, false, Bool-set}
use native.Mathlib.Omega.{arith}
use realtime_notification_pl.Prelude.Tests.{if◌then◌else◌, Bool-cases}

module _ {ℓ} {A : Type ℓ} where
  abbrev pub length : List A → ℕ
  length [] = 0
  length (x ∷ xs) = suc (length xs)

  abbrev pub take : ℕ → List A → List A
  take zero xs = []
  take (suc n) [] = []
  take (suc n) (x ∷ xs) = x ∷ take n xs

  abbrev pub replicate : ℕ → A → List A
  replicate zero x = []
  replicate (suc n) x = x ∷ replicate n x

  -- a WHERE clause
  abbrev pub filter : (A → Bool) → List A → List A
  filter p [] = []
  filter p (x ∷ xs) = if p x then x ∷ filter p xs else filter p xs

  abbrev pub count : (A → Bool) → List A → ℕ
  count p [] = 0
  count p (x ∷ xs) = if p x then suc (count p xs) else count p xs

  abbrev pub any : (A → Bool) → List A → Bool
  any p [] = false
  any p (x ∷ xs) = if p x then true else any p xs

  abbrev pub All {κ} : (A → Type κ) → List A → Type κ
  All P [] = Unit
  All P (x ∷ xs) = P x × All P xs

module _ {ℓ} {A : Type ℓ} where
  pub length-take-le : (n : ℕ) (xs : List A) → length (take n xs) ≤ n
  length-take-le (suc n) (x ∷ xs) = omega (arith, length-take-le n xs)
  length-take-le _ _ = omega arith

  pub take_short : (n : ℕ) (xs : List A) → length (take n xs) < n → take n xs ≡ xs
  take_short zero xs h = absurd (omega arith)
  take_short (suc n) [] h = refl
  take_short (suc n) (x ∷ xs) h = ap (◌∷◌ x) (take_short n xs (omega arith))

  pub take_all : (n : ℕ) (xs : List A) → length xs ≤ n → take n xs ≡ xs
  take_all zero [] h = refl
  take_all zero (x ∷ xs) h = absurd (omega arith)
  take_all (suc n) [] h = refl
  take_all (suc n) (x ∷ xs) h = ap (◌∷◌ x) (take_all n xs (omega arith))

  pub length-filter : (p : A → Bool) (xs : List A) → length (filter p xs) ≡ count p xs
  length-filter p [] = refl
  length-filter p (x ∷ xs) = ground (arith, length-filter p xs)

  lengthᴰ-perm : {xs ys : List A} → Permᴰ xs ys → length xs ≡ length ys
  lengthᴰ-perm nil = refl
  lengthᴰ-perm (cons e d) = ap suc (lengthᴰ-perm d)
  lengthᴰ-perm (swap e f) = refl
  lengthᴰ-perm (trans d e) = lengthᴰ-perm d ∙ lengthᴰ-perm e

  pub length-perm : {xs ys : List A} → Perm xs ys → length xs ≡ length ys
  length-perm h = ∥∥₁_elim h (ℕ_set _ _) lengthᴰ-perm

  pub All-take {κ} : (P : A → Type κ) (n : ℕ) (xs : List A) → All P xs → All P (take n xs)
  All-take P zero xs h = tt
  All-take P (suc n) [] h = tt
  All-take P (suc n) (x ∷ xs) h = (h.0, All-take P n xs h.1)

  pub All-of_mem {κ} : (P : A → Type κ) (xs : List A) → ((x : A) → Mem x xs → P x) → All P xs
  All-of_mem P [] h = tt
  All-of_mem P (x ∷ xs) h = (h x mem-cons_self, All-of_mem P xs (λ y m. h y (mem-cons_of_mem x m)))

  pub mem-filter-true : (p : A → Bool) (x : A) (xs : List A) → Mem x (filter p xs) → p x ≡ true
  mem-filter-true p x [] m = absurd (not-mem-nil m)
  mem-filter-true p x (y ∷ ys) m = elim (Bool-cases (p y)) [
    | inl e ↦
        Or.elim (Bool-set _ _) (mem-cons.0 (rw e at m)) (λ same. rw same e) (mem-filter-true p x ys)
    | inr e ↦ mem-filter-true p x ys (rw e at m)
  ]

  pub mem-filter_of_mem :
      (p : A → Bool) (x : A) (xs : List A) → Mem x xs → p x ≡ true → Mem x (filter p xs)
  mem-filter_of_mem p x [] m h = absurd (not-mem-nil m)
  mem-filter_of_mem p x (y ∷ ys) m h = elim (Bool-cases (p y)) [
    | inl e ↦ rw e (
        Or.elim Mem-prop (mem-cons.0 m) (λ same. rw same mem-cons_self)
          (λ rest. mem-cons_of_mem y (mem-filter_of_mem p x ys rest h)))
    | inr e ↦ rw e (
        Or.elim Mem-prop (mem-cons.0 m) (λ same. cc (ap p same))
          (λ rest. mem-filter_of_mem p x ys rest h))
  ]

  pub mem_of_mem-filter : (p : A → Bool) (x : A) (xs : List A) → Mem x (filter p xs) → Mem x xs
  mem_of_mem-filter p x [] m = m
  mem_of_mem-filter p x (y ∷ ys) m = elim (Bool-cases (p y)) [
    | inl e ↦
        Or.elim Mem-prop (mem-cons.0 (rw e at m)) (λ same. rw same mem-cons_self)
          (λ rest. mem-cons_of_mem y (mem_of_mem-filter p x ys rest))
    | inr e ↦ mem-cons_of_mem y (mem_of_mem-filter p x ys (rw e at m))
  ]

  pub All-mem {κ} :
      (P : A → Type κ)
      → ((x : A) → IsProp (P x))
      → (x : A) (xs : List A) → All P xs
      → Mem x xs
      → P x
  All-mem P prop x [] h m = absurd (not-mem-nil m)
  All-mem P prop x (y ∷ ys) h m =
      Or.elim (prop x) (mem-cons.0 m) (λ same. rw same (h.0)) (All-mem P prop x ys h.1)
