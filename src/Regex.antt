-- ===== src/Regex.antt =====
-- Regular expressions, as far as the program writes them, and what it means that a whole text
-- matches one. The engine that decides this is a parameter (Platform).
pub mod Matcher
use Prim.Native.Char.{code}
use Prim.Native.String as Text
use realtime_notification_pl.Prelude.{
  ℕ, String, ◌≡◌, Bool, true, false, List, [], ◌∷◌, ◌++◌, leb, if◌then◌else◌,
}

-- the code points of a text
abbrev pub codes : String → List ℕ
codes Text.[] = []
codes (Text.◌∷◌ c s) = code c ∷ codes s

-- the ranges of a class `[…]`
abbrev pub Spans : Type 0
Spans = List (ℕ × ℕ)

abbrev pub within : Spans → ℕ → Bool
within [] c = false
within ((lo, hi) ∷ rest) c =
    if leb lo c then if leb c hi then true else within rest c else within rest c

pub data Regex : Type 0 where
  never blank : Regex
  class : Spans → Regex
  alt both : Regex → Regex → Regex
  star : Regex → Regex

-- `r+`
abbrev pub plus : Regex → Regex
plus r = both r (star r)

pub data Matches : Regex → List ℕ → Type 0 where
  is_blank : Matches blank []
  is_class : {spans : Spans} {c : ℕ} → within spans c ≡ true → Matches (class spans) (c ∷ [])
  is_left : {p q : Regex} {s : List ℕ} → Matches p s → Matches (alt p q) s
  is_right : {p q : Regex} {s : List ℕ} → Matches q s → Matches (alt p q) s
  is_both :
      {p q : Regex} {u : List ℕ} (s t : List ℕ)
      → Matches p s
      → Matches q t
      → u ≡ s ++ t
      → Matches (both p q) u
  is_end : {p : Regex} → Matches (star p) []
  is_more :
      {p : Regex} {u : List ℕ} (s t : List ℕ)
      → Matches p s
      → Matches (star p) t
      → u ≡ s ++ t
      → Matches (star p) u
