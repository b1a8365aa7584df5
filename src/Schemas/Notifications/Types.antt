-- ===== src/Schemas/Notifications/Types.antt =====
-- app/schemas/notifications.py: which texts are types of notifications.
use realtime_notification_pl.Prelude.{
  ℕ, ◌≤◌, String, ◌≡◌, ◌↔◌, refl, sym, ap, ◌∙◌, true, some, List, [], ◌∷◌, ◌++◌, arith, Bool-cases,
  inl, inr,
}
use realtime_notification_pl.Prelude.Lists.{length, All}
use realtime_notification_pl.Regex.{
  Spans, within, Regex, class, both, star, codes, Matches, is_class, is_both, is_end, is_more,
}
use realtime_notification_pl.Json.{str}
use realtime_notification_pl.Platform.{Platform}
use realtime_notification_pl.Schemas.Notifications.{
  lower, word, dot, segment, notification_type_pattern, type_field, fits,
}

-- a code point of a class
abbrev pub In : Spans → ℕ → Type 0
In spans c = within spans c ≡ true

-- a letter, then letters, digits and underscores
abbrev pub IsSegment : List ℕ → Type 0
IsSegment [] = ⊥
IsSegment (c ∷ s) = In lower c × All (In word) s

-- each segment after a stop
abbrev pub stopped : List (List ℕ) → List ℕ
stopped [] = []
stopped (s ∷ rest) = 46 ∷ s ++ stopped rest

-- lowercase dotted namespaces: two segments or more, with a stop between each two
abbrev pub IsDotted : List ℕ → Type 0
IsDotted u =
    (first second : List ℕ) × (rest : List (List ℕ)) × All IsSegment (first ∷ second ∷ rest)
    × (u ≡ first ++ stopped (second ∷ rest))

star_class : (spans : Spans) (s : List ℕ) → Matches (star (class spans)) s → All (In spans) s
star_class spans s is_end = tt
star_class spans s (is_more u t (is_class h) n e) = rw e (h, star_class spans t n)

class_star : (spans : Spans) (s : List ℕ) → All (In spans) s → Matches (star (class spans)) s
class_star spans [] h = is_end
class_star spans (c ∷ s) h = is_more (c ∷ []) s (is_class h.0) (class_star spans s h.1) refl

Matches-IsSegment : (s : List ℕ) → Matches segment s → IsSegment s
Matches-IsSegment s (is_both u t (is_class h) n e) = rw e (h, star_class word t n)

IsSegment-Matches : (s : List ℕ) → IsSegment s → Matches segment s
IsSegment-Matches [] h = absurd h
IsSegment-Matches (c ∷ s) h = is_both (c ∷ []) s (is_class h.0) (class_star word s h.1) refl

abbrev tail : Regex
tail = both (class dot) segment

-- the segments of a text that starts with a stop
abbrev Stopped : List ℕ → Type 0
Stopped u = (rest : List (List ℕ)) × All IsSegment rest × (u ≡ stopped rest)

dot_code : (c : ℕ) → In dot c → c ≡ 46
dot_code c h = ground (arith, h)

Matches-tail : (s : List ℕ) → Matches tail s → (v : List ℕ) × IsSegment v × (s ≡ 46 ∷ v)
Matches-tail s (is_both u t (is_class {c = c} h) n e) =
    (t, Matches-IsSegment t n, e ∙ ap (λ d. d ∷ t) (dot_code c h))

Matches-Stopped : (s : List ℕ) → Matches (star tail) s → Stopped s
Matches-Stopped s is_end = ([], tt, refl)
Matches-Stopped s (is_more u t m n e) =
    let (v, i, g) = Matches-tail u m in
    let (rest, h, f) = Matches-Stopped t n in (v ∷ rest, (i, h), rw (e, g, f) refl)

IsSegment-tail : (s : List ℕ) → IsSegment s → Matches tail (46 ∷ s)
IsSegment-tail s h = is_both (46 ∷ []) s (is_class refl) (IsSegment-Matches s h) refl

Stopped-Matches : (rest : List (List ℕ)) → All IsSegment rest → Matches (star tail) (stopped rest)
Stopped-Matches [] h = is_end
Stopped-Matches (s ∷ rest) h =
    is_more (46 ∷ s) (stopped rest) (IsSegment-tail s h.0) (Stopped-Matches rest h.1) refl

Matches-IsDotted : (u : List ℕ) → Matches notification_type_pattern u → IsDotted u
Matches-IsDotted u (is_both a b m (is_both c d n k f) e) =
    let (v, i, g) = Matches-tail c n in
    let (rest, h, q) = Matches-Stopped d k in
    (a, v, rest, (Matches-IsSegment a m, (i, h)), rw (e, f, g, q) refl)

IsDotted-Matches : (u : List ℕ) → IsDotted u → Matches notification_type_pattern u
IsDotted-Matches u (first, second, rest, h, e) =
    is_both first (stopped (second ∷ rest)) (IsSegment-Matches first h.0)
      (is_both (46 ∷ second) (stopped rest) (IsSegment-tail second h.1.0)
        (Stopped-Matches rest h.1.1) refl)
      e

length-fits : (s : String) → fits s ≡ true → length (codes s) ≤ 50
length-fits s h = ground (arith, h)

fits-length : (s : String) → 1 ≤ length (codes s) → length (codes s) ≤ 50 → fits s ≡ true
fits-length s g h = ground (arith, g, h)

length_positive : (s t : List ℕ) → 1 ≤ length (s ++ 46 ∷ t)
length_positive [] t = omega arith
length_positive (c ∷ s) t = omega arith

IsDotted-fits : (s : String) → IsDotted (codes s) → length (codes s) ≤ 50 → fits s ≡ true
IsDotted-fits s (first, second, rest, h, e) g =
    fits-length s (rw e (length_positive first (second ++ stopped rest))) g

module _ ⦃p : Platform⦄ where
  accepted :
      (s t : String)
      → type_field (str s) ≡ some t
      → (t ≡ s) × IsDotted (codes s) × (length (codes s) ≤ 50)
  unfolding type_field
  accepted s t h = elim (Bool-cases (fits s)) [
    | inr e ↦ absurd (cc (rw e at h))
    | inl e ↦ elim (Bool-cases (p.matches notification_type_pattern s)) [
      | inr f ↦ absurd (cc (rw (e, f) at h))
      | inl f ↦ (
        cc (rw (e, f) at h),
        Matches-IsDotted (codes s) ((p.matches_iff notification_type_pattern s).0 f),
        length-fits s e,
      )
    ]
  ]

  IsDotted-type_field :
      (s : String) → IsDotted (codes s) → length (codes s) ≤ 50 → type_field (str s) ≡ some s
  unfolding type_field
  IsDotted-type_field s h g = rw (
    IsDotted-fits s h g,
    (p.matches_iff notification_type_pattern s).1 (IsDotted-Matches (codes s) h),
  )

  -- The type that a body may have, for every text: the field accepts it, and as it stands,
  -- exactly when it has 50 characters at most and is two segments or more with a stop between
  -- each two, where a segment is a small letter and then small letters, digits and underscores.
  pub type_field_iff :
      (s t : String)
      → (type_field (str s) ≡ some t) ↔ ((t ≡ s) × IsDotted (codes s) × (length (codes s) ≤ 50))
  unfolding type_field
  type_field_iff s t = (accepted s t, λ h. IsDotted-type_field s h.1 h.2 ∙ ap some (sym h.0))
