-- ===== src/Core/LoggingConfig/Entries.antt =====
-- Each field of a log line.
use text.Mathlib.TextPositions.{eq_refl}
use realtime_notification_pl.Prelude.{
  String, ◌≡◌, refl, ap, ◌∙◌, Bool, Option, none, some, str_eq, eq_iff, arith, if◌then◌else◌,
  Bool-cases, Option-cases, inl, inr,
}
use realtime_notification_pl.Json.{Json, Fields, str, done, field, get}
use realtime_notification_pl.Platform.{Platform}
use realtime_notification_pl.Core.LoggingConfig.{
  LogRecord, JsonFormatter, put, add_extras, add_exception, standard, entry,
}

-- the first of two
abbrev pub or_else : Option Json → Option Json → Option Json
or_else none o = o
or_else (some v) o = some v

get-put :
    (key k : String) (value : Json) (entry : Fields)
    → get k (put key value entry) ≡ (if str_eq key k then some value else get k entry)
get-put key k value done = refl
get-put key k value (field j v rest) = elim (Bool-cases (str_eq j key)) [
  | inl e ↦ ground (arith, e, eq_iff j key, eq_refl key)
  | inr e ↦ ground (arith, e, eq_iff j k, eq_iff key k, eq_iff j key, get-put key k value rest)
]

-- what the extras add
abbrev pub extra : (String → Bool) → String → Fields → Option Json
extra is_reserved k attributes = if is_reserved k then none else get k attributes

get-add_extras :
    (is_reserved : String → Bool) (k : String) (attributes entry : Fields)
    → get k (add_extras is_reserved attributes entry)
      ≡ or_else (get k entry) (extra is_reserved k attributes)
get-add_extras is_reserved k done entry = ground (arith, Option-cases (get k entry))
get-add_extras is_reserved k (field key value rest) entry =
    let old = get-add_extras is_reserved k rest entry in
    let new = get-add_extras is_reserved k rest (put key value entry) in
    ground (
      arith,
      old,
      new,
      get-put key k value entry,
      Option-cases (get k entry),
      Option-cases (get key entry),
      eq_iff key k,
    )

abbrev pub exception_field : Option String → String → Option Json
exception_field none k = none
exception_field (some text) k = if str_eq "exception" k then some (str text) else none

get-add_exception :
    (o : Option String) (k : String) (entry : Fields)
    → get k (add_exception o entry) ≡ or_else (exception_field o k) (get k entry)
get-add_exception none k entry = refl
get-add_exception (some text) k entry = ground (arith, get-put "exception" k (str text) entry)

module _ ⦃p : Platform⦄ where
  -- What a log line says under every name: the text of the exception, if there is one, under
  -- "exception"; otherwise a standard field, whatever extra fields of the record have its name; and
  -- otherwise the record's own field, unless its name is reserved.
  pub get-entry :
      (is_reserved : String → Bool) (self : JsonFormatter) (r : LogRecord) (k : String)
      → get k (entry is_reserved self r)
        ≡ or_else
            (exception_field r.exception k)
            (or_else (get k (standard self r)) (extra is_reserved k r.attributes))
  unfolding entry
  get-entry is_reserved self r k =
      get-add_exception r.exception k _
      ∙ ap (or_else (exception_field r.exception k))
          (get-add_extras is_reserved k r.attributes (standard self r))
