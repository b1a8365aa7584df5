-- ===== src/Platform/Sample.antt =====
-- A value of the parameter, for tests and witnesses. A number is spelled by strokes and a stop;
-- as for real UUIDs, another spelling (with a star) is read too and is never written.
use Prim.Native.String as Text
use realtime_notification_pl.Prelude.{
  true, ℕ, ◌+◌, zero, suc, String, ◌≡◌, refl, Option, none, some, List, [], ◌∷◌, if◌then◌else◌,
}
use realtime_notification_pl.HeaderNames.{same_name}
use realtime_notification_pl.Regex.Matcher.{engine, engine_iff}
use realtime_notification_pl.Json.{Json, str, arr, obj, Items, nil, cons, Fields, field, done}
use realtime_notification_pl.Redis.Table as RedisTable
use realtime_notification_pl.Postgres.Table as PostgresTable
use realtime_notification_pl.Postgres.{Uuid}
use realtime_notification_pl.Platform.{Platform}

abbrev pub spell : Uuid → String
spell zero = "."
spell (suc n) = Text.◌∷◌ "|" (spell n)

abbrev pub next : Option Uuid → Option Uuid
next none = none
next (some n) = some (suc n)

abbrev pub read : String → Option Uuid
read Text.[] = none
read (Text.◌∷◌ c Text.[]) = some zero
read (Text.◌∷◌ c (Text.◌∷◌ d s)) = next (read (Text.◌∷◌ d s))

pub read-spell : (u : Uuid) → read (spell u) ≡ some u
read-spell zero = refl
read-spell (suc zero) = refl
read-spell (suc (suc n)) = rw (read-spell (suc n))

abbrev pub read_field : Json → Option Uuid
read_field (str s) = read s
read_field _ = none

-- a text of two bytes for each value and each name
unfoldable mutual
  pub size : Json → ℕ
  size (arr items) = 2 + size_items items
  size (obj fields) = 2 + size_fields fields
  size _ = 2

  pub size_items : Items → ℕ
  size_items nil = 0
  size_items (cons j rest) = size j + size_items rest

  pub size_fields : Fields → ℕ
  size_fields done = 0
  size_fields (field k j rest) = 2 + size j + size_fields rest

abbrev pub get_header : String → List (String × String) → Option String
get_header n [] = none
get_header n ((m, value) ∷ h) = if same_name m n then some value else get_header n h

instance abbrev pub sample : Platform
sample = record {
  redis = RedisTable.table;
  postgres = PostgresTable.table;
  uuid_text = spell;
  uuid_parse = read;
  isoformat = spell;
  fromisoformat = read;
  uuid_field = read_field;
  repr = λ j. "?";
  json_time = spell;
  jwt_decode = λ token. some (field "sub" (str token) done);
  decimal = spell;
  Wire = Json;
  dumps = λ j. j;
  loads = some;
  is_unicode = λ m. true;
  encoded_bytes = size;
  matches = engine;
  Headers = List (String × String);
  get_header = get_header;
  set_header = λ m value h. (m, value) ∷ h;
  get-set_header = λ m n value h. refl;
  parse-text = read-spell;
  uuid_field-text = read-spell;
  fromisoformat-isoformat = read-spell;
  is_unicode-dumps = λ j. refl;
  loads-dumps = λ j. refl;
  matches_iff = engine_iff;
}
