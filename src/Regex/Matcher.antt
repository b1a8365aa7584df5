-- ===== src/Regex/Matcher.antt =====
-- An engine: derivatives of regular expressions.
use realtime_notification_pl.Prelude.{
  ℕ, String, ◌≡◌, ◌↔◌, refl, sym, ap, ◌∙◌, Bool, true, false, inl, inr, ◌⊎◌, List, [], ◌∷◌, ◌++◌,
  arith, if◌then◌else◌, Bool-cases,
}
use realtime_notification_pl.Regex.{
  codes, Spans, within, Regex, never, blank, class, alt, both, star, Matches, is_blank, is_class,
  is_left, is_right, is_both, is_end, is_more,
}

nullable : Regex → Bool
nullable never = false
nullable blank = true
nullable (class spans) = false
nullable (alt p q) = if nullable p then true else nullable q
nullable (both p q) = if nullable p then nullable q else false
nullable (star p) = true

derive : ℕ → Regex → Regex
unfolding nullable
derive c never = never
derive c blank = never
derive c (class spans) = if within spans c then blank else never
derive c (alt p q) = alt (derive c p) (derive c q)
derive c (both p q) =
    if nullable p then alt (both (derive c p) q) (derive c q) else both (derive c p) q
derive c (star p) = both (derive c p) (star p)

run : Regex → List ℕ → Bool
unfolding derive
run r [] = nullable r
run r (c ∷ s) = run (derive c r) s

unfoldable pub engine : Regex → String → Bool
unfolding run
engine r s = run r (codes s)

nullable-Matches : (r : Regex) → nullable r ≡ true → Matches r []
unfolding nullable
nullable-Matches never h = absurd (cc h)
nullable-Matches blank h = is_blank
nullable-Matches (class spans) h = absurd (cc h)
nullable-Matches (alt p q) h = elim (Bool-cases (nullable p)) [
  | inl e ↦ is_left (nullable-Matches p e)
  | inr e ↦ is_right (nullable-Matches q (rw e at h))
]
nullable-Matches (both p q) h = elim (Bool-cases (nullable p)) [
  | inl e ↦ is_both [] [] (nullable-Matches p e) (nullable-Matches q (rw e at h)) refl
  | inr e ↦ absurd (cc (rw e at h))
]
nullable-Matches (star p) h = is_end

append_nil_left : (s t : List ℕ) → [] ≡ s ++ t → s ≡ []
append_nil_left [] t e = refl
append_nil_left (x ∷ s) t e = absurd (cc e)

append_nil_right : (s t : List ℕ) → [] ≡ s ++ t → t ≡ []
append_nil_right [] t e = sym e
append_nil_right (x ∷ s) t e = absurd (cc e)

Matches-nullable : (r : Regex) (u : List ℕ) → Matches r u → u ≡ [] → nullable r ≡ true
unfolding nullable
Matches-nullable never u m e = elim m [ ]
Matches-nullable blank u is_blank e = refl
Matches-nullable (class spans) u (is_class h) e = absurd (cc e)
Matches-nullable (alt p q) u (is_left m) e = rw (Matches-nullable p u m e) refl
Matches-nullable (alt p q) u (is_right m) e = ground (arith, Matches-nullable q u m e)
Matches-nullable (both p q) u (is_both s t m n f) e =
    rw (Matches-nullable p s m (append_nil_left s t (sym e ∙ f)))
      (Matches-nullable q t n (append_nil_right s t (sym e ∙ f)))
Matches-nullable (star p) u m e = refl

-- the first letter of the whole is that of the first part, or the first part is empty
append_cases :
    (c : ℕ) (s u t : List ℕ)
    → c ∷ s ≡ u ++ t
    → ((u ≡ []) × (c ∷ s ≡ t)) ⊎ ((v : List ℕ) × (u ≡ c ∷ v) × (s ≡ v ++ t))
append_cases c s [] t e = inl (refl, e)
append_cases c s (x ∷ v) t e = inr (v, ap (λ h. h ∷ v) (sym (cc e)), cc e)

abbrev Derived : ℕ → Regex → Type 0
Derived c r = (s : List ℕ) → Matches (derive c r) s → Matches r (c ∷ s)

more :
    (c : ℕ) (p q : Regex)
    → Derived c p
    → (s : List ℕ) → Matches (both (derive c p) q) s
    → Matches (both p q) (c ∷ s)
more c p q f s (is_both u t m n e) = is_both (c ∷ u) t (f u m) n (ap (λ h. c ∷ h) e)

again :
    (c : ℕ) (p : Regex)
    → Derived c p
    → (s : List ℕ) → Matches (both (derive c p) (star p)) s
    → Matches (star p) (c ∷ s)
again c p f s (is_both u t m n e) = is_more (c ∷ u) t (f u m) n (ap (λ h. c ∷ h) e)

either_way :
    (c : ℕ) (p q : Regex)
    → nullable p ≡ true
    → Derived c p
    → Derived c q
    → (s : List ℕ) → Matches (alt (both (derive c p) q) (derive c q)) s
    → Matches (both p q) (c ∷ s)
either_way c p q e f g s (is_left m) = more c p q f s m
either_way c p q e f g s (is_right m) = is_both [] (c ∷ s) (nullable-Matches p e) (g s m) refl

letter :
    (c : ℕ) (spans : Spans) (s : List ℕ)
    → within spans c ≡ true
    → Matches blank s
    → Matches (class spans) (c ∷ s)
letter c spans s e is_blank = is_class e

no_match : (s : List ℕ) → ¬ Matches never s
no_match s m = elim m [ ]

derive-Matches : (c : ℕ) (r : Regex) → Derived c r
unfolding derive
derive-Matches c never s m = elim m [ ]
derive-Matches c blank s m = elim m [ ]
derive-Matches c (class spans) s m = elim (Bool-cases (within spans c)) [
  | inl e ↦ letter c spans s e (rw e at m)
  | inr e ↦ absurd (no_match s (rw e at m))
]
derive-Matches c (alt p q) s (is_left m) = is_left (derive-Matches c p s m)
derive-Matches c (alt p q) s (is_right m) = is_right (derive-Matches c q s m)
derive-Matches c (both p q) s m = elim (Bool-cases (nullable p)) [
  | inl e ↦ either_way c p q e (derive-Matches c p) (derive-Matches c q) s (rw e at m)
  | inr e ↦ more c p q (derive-Matches c p) s (rw e at m)
]
derive-Matches c (star p) s m = again c p (derive-Matches c p) s m

last :
    (c : ℕ) (spans : Spans) (s : List ℕ)
    → within spans c ≡ true
    → s ≡ []
    → Matches (derive c (class spans)) s
unfolding derive
last c spans s e f = rw (f, e) is_blank

kept :
    (c : ℕ) (p q : Regex) (s : List ℕ)
    → Matches (both (derive c p) q) s
    → Matches (derive c (both p q)) s
unfolding derive
kept c p q s m = elim (Bool-cases (nullable p)) [ inl e ↦ rw e (is_left m) | inr e ↦ rw e m ]

skipped :
    (c : ℕ) (p q : Regex) (s : List ℕ)
    → nullable p ≡ true
    → Matches (derive c q) s
    → Matches (derive c (both p q)) s
unfolding derive
skipped c p q s e m = rw e (is_right m)

Matches-derive :
    (c : ℕ) (r : Regex) (u s : List ℕ) → Matches r u → u ≡ c ∷ s → Matches (derive c r) s
unfolding derive
Matches-derive c never u s m e = elim m [ ]
Matches-derive c blank u s is_blank e = absurd (cc e)
Matches-derive c (class spans) u s (is_class h) e =
    last c spans s (ap (within spans) (sym (cc e)) ∙ h) (cc e)
Matches-derive c (alt p q) u s (is_left m) e = is_left (Matches-derive c p u s m e)
Matches-derive c (alt p q) u s (is_right m) e = is_right (Matches-derive c q u s m e)
Matches-derive c (both p q) u s (is_both v t m n f) e = elim (append_cases c s v t (sym e ∙ f)) [
  | inl (g, h) ↦ skipped c p q s (Matches-nullable p v m g) (Matches-derive c q t s n (sym h))
  | inr (w, g, h) ↦ kept c p q s (is_both w t (Matches-derive c p v w m g) n h)
]
Matches-derive c (star p) u s is_end e = absurd (cc e)
Matches-derive c (star p) u s (is_more v t m n f) e = elim (append_cases c s v t (sym e ∙ f)) [
  | inl (g, h) ↦ Matches-derive c (star p) t s n (sym h)
  | inr (w, g, h) ↦ is_both w t (Matches-derive c p v w m g) n h
]

run-Matches : (r : Regex) (s : List ℕ) → run r s ≡ true → Matches r s
unfolding run
run-Matches r [] e = nullable-Matches r e
run-Matches r (c ∷ s) e = derive-Matches c r s (run-Matches (derive c r) s e)

Matches-run : (r : Regex) (s : List ℕ) → Matches r s → run r s ≡ true
unfolding run
Matches-run r [] m = Matches-nullable r [] m refl
Matches-run r (c ∷ s) m = Matches-run (derive c r) s (Matches-derive c r (c ∷ s) s m refl)

pub engine_iff : (r : Regex) (s : String) → (engine r s ≡ true) ↔ Matches r (codes s)
unfolding engine
engine_iff r s = (run-Matches r (codes s), Matches-run r (codes s))
