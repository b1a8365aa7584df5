-- ===== src/Platform.antt =====
-- What the program takes from outside, as one parameter: Redis, PostgreSQL, and the parts of
-- Python's library that it only passes values through (uuid, datetime and json).
pub mod Sample
use realtime_notification_pl.Prelude.{
  ℕ, String, ◌≡◌, ap, ◌↔◌, Bool, true, Option, some, if◌then◌else◌,
}
use realtime_notification_pl.Json.{Json, Fields, str}
use realtime_notification_pl.HeaderNames.{same_name}
use realtime_notification_pl.Regex.{Regex, Matches, codes}
use realtime_notification_pl.Redis.{Redis}
use realtime_notification_pl.Postgres.{Uuid, Postgres}

pub record Platform : Type 1 where
  pub redis : Redis
  pub postgres : Postgres
  -- `str(uuid)`, and `uuid.UUID(text)`, which raises ValueError on a text that spells no UUID
  pub uuid_text : Uuid → String
  pub uuid_parse : String → Option Uuid
  -- `t.isoformat()` and `datetime.fromisoformat(text)`; a time is a number of ticks
  pub isoformat : ℕ → String
  pub fromisoformat : String → Option ℕ
  -- pydantic's reading of a field of type UUID, and `str(value)` of a value that is no text
  pub uuid_field : Json → Option Uuid
  pub repr : Json → String
  -- pydantic's JSON text of a time
  pub json_time : ℕ → String
  -- `jwt.decode`, with the settings' key and algorithm: the claims of a valid token
  pub jwt_decode : String → Option Fields
  -- what GET answers for a counter
  pub decimal : ℕ → String
  -- a channel's messages: `json.dumps`, and `json.loads`, which raises on a malformed text
  pub Wire : Type 0
  pub dumps : Json → Wire
  pub loads : Wire → Option Json
  -- whether the bytes of a message are of the encoding that `json.loads` finds them to have; if not,
  -- it raises a UnicodeDecodeError
  pub is_unicode : Wire → Bool
  -- `len(text.encode("utf-8"))`
  pub encoded_bytes : Wire → ℕ
  -- pydantic's regular expressions: whether the whole text matches
  pub matches : Regex → String → Bool
  -- Starlette's headers; the names are compared without regard to case
  pub Headers : Type 0
  pub get_header : String → Headers → Option String
  pub set_header : String → String → Headers → Headers
  pub parse-text : (u : Uuid) → uuid_parse (uuid_text u) ≡ some u
  pub uuid_field-text : (u : Uuid) → uuid_field (str (uuid_text u)) ≡ some u
  pub fromisoformat-isoformat : (t : ℕ) → fromisoformat (isoformat t) ≡ some t
  pub is_unicode-dumps : (j : Json) → is_unicode (dumps j) ≡ true
  pub loads-dumps : (j : Json) → loads (dumps j) ≡ some j
  pub get-set_header :
      (m n value : String) (h : Headers)
      → get_header n (set_header m value h) ≡ (if same_name m n then some value else get_header n h)
  pub matches_iff : (r : Regex) (s : String) → (matches r s ≡ true) ↔ Matches r (codes s)

pub uuid_text-injective : (p : Platform) (u v : Uuid) → p.uuid_text u ≡ p.uuid_text v → u ≡ v
uuid_text-injective p u v e = cc (p.parse-text u, p.parse-text v, ap p.uuid_parse e)
