-- ===== src/Prelude/Dict.antt =====
-- A Python dict with text keys, in the order of insertion.
use mathlib.Core.Bool.{Bool, true, false}
use mathlib.Core.List.{List, [], ◌∷◌, map}
use mathlib.Core.Option.{Option, none, some}
use mathlib.Core.Path.{◌≡◌, refl}
use native.Mathlib.Omega.{arith}
use text.Mathlib.Text.{◌==◌}
use text.Mathlib.TextEquality.{eq_iff}
use text.Mathlib.TextPositions.{eq_refl}
use Prim.Native.String.{String}
use realtime_notification_pl.Prelude.Tests.{if◌then◌else◌}

abbrev pub Dict : Type 0 → Type 0
Dict V = List (String × V)

module _ {V : Type 0} where
  -- `d.get(k)`
  abbrev pub lookup : String → Dict V → Option V
  lookup k [] = none
  lookup k ((j, v) ∷ d) = if j == k then some v else lookup k d

  -- `k in d`
  abbrev pub contains : String → Dict V → Bool
  contains k d = elim (lookup k d) [ none ↦ false | some _ ↦ true ]

  -- `d[k] = v`
  abbrev pub insert : String → V → Dict V → Dict V
  insert k v [] = (k, v) ∷ []
  insert k v ((j, w) ∷ d) = if j == k then (j, v) ∷ d else (j, w) ∷ insert k v d

  -- `d.pop(k, None)`
  abbrev pub erase : String → Dict V → Dict V
  erase k [] = []
  erase k ((j, w) ∷ d) = if j == k then erase k d else (j, w) ∷ erase k d

  -- `list(d.keys())`
  abbrev pub keys : Dict V → List String
  keys = map (λ e. e.0)

module _ {V : Type 0} where
  pub lookup-insert :
      (k j : String) (v : V) (d : Dict V)
      → lookup j (insert k v d) ≡ (if k == j then some v else lookup j d)
  lookup-insert k j v [] = refl
  lookup-insert k j v ((i, w) ∷ d) =
      ground (arith, eq_iff k j, eq_iff i k, eq_iff i j, lookup-insert k j v d)

  pub lookup-erase :
      (k j : String) (d : Dict V) → lookup j (erase k d) ≡ (if k == j then none else lookup j d)
  lookup-erase k j [] = ground arith
  lookup-erase k j ((i, w) ∷ d) =
      ground (arith, eq_iff k j, eq_iff i k, eq_iff i j, lookup-erase k j d)

-- the keys of a list, taken out one after the other
module _ {V : Type 0} where
  abbrev pub erase_each : List String → Dict V → Dict V
  erase_each [] d = d
  erase_each (k ∷ ks) d = erase_each ks (erase k d)

abbrev pub listed : String → List String → Bool
listed v [] = false
listed v (k ∷ ks) = if k == v then true else listed v ks

module _ {V : Type 0} where
  pub lookup-erase_each :
      (ks : List String) (v : String) (d : Dict V)
      → lookup v (erase_each ks d) ≡ (if listed v ks then none else lookup v d)
  lookup-erase_each [] v d = refl
  lookup-erase_each (k ∷ ks) v d =
      ground (arith, lookup-erase_each ks v (erase k d), lookup-erase k v d)

  lookup_unlisted : (v : String) (d : Dict V) → listed v (keys d) ≡ false → lookup v d ≡ none
  lookup_unlisted v [] h = refl
  lookup_unlisted v ((k, x) ∷ d) h = ground (arith, lookup_unlisted v d)

  nothing_found : (d : Dict V) → ((v : String) → lookup v d ≡ none) → d ≡ []
  nothing_found [] h = refl
  nothing_found ((k, x) ∷ d) h = absurd (ground (arith, eq_refl k, h k))

  lookup-erase_keys : (v : String) (d : Dict V) → lookup v (erase_each (keys d) d) ≡ none
  lookup-erase_keys v d = ground (arith, lookup-erase_each (keys d) v d, lookup_unlisted v d)

  pub erase_keys : (d : Dict V) → erase_each (keys d) d ≡ []
  erase_keys d = nothing_found _ (λ v. lookup-erase_keys v d)

  pub listed-keys : (v : String) (d : Dict V) → contains v d ≡ true → listed v (keys d) ≡ true
  listed-keys v [] h = h
  listed-keys v ((k, x) ∷ d) h = ground (arith, listed-keys v d)
