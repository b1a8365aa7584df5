-- ===== src/HeaderNames.antt =====
-- Names of HTTP headers.
use realtime_notification_pl.Prelude.{
  ℕ, ◌+◌, String, Bool, List, [], ◌∷◌, true, false, leb, ◌==◌, if◌then◌else◌,
}
use realtime_notification_pl.Regex.{codes}

-- an ASCII letter in lower case
abbrev pub lower_code : ℕ → ℕ
lower_code c = if leb 65 c then if leb c 90 then c + 32 else c else c

abbrev pub same_codes : List ℕ → List ℕ → Bool
same_codes [] [] = true
same_codes (c ∷ s) (d ∷ t) = if lower_code c == lower_code d then same_codes s t else false
same_codes _ _ = false

abbrev pub same_name : String → String → Bool
same_name m n = same_codes (codes m) (codes n)
