-- ===== src/Core/LoggingConfig.antt =====
-- app/core/logging_config.py: what JsonFormatter writes for a record of Python's logging.
pub mod Entries
use realtime_notification_pl.Prelude.{
  ℕ, String, Bool, true, false, Option, none, some, str_eq, if◌then◌else◌,
}
use realtime_notification_pl.Json.{Json, Fields, str, done, field, get}
use realtime_notification_pl.Platform.{Platform}

-- logging.LogRecord: its message with the arguments put in, its whole `__dict__`, and the text that
-- `formatException` makes of its exception
pub record LogRecord : Type 0 where
  pub created : ℕ
  pub levelname : String
  pub name : String
  pub message : String
  pub attributes : Fields
  pub exception : Option String

pub record JsonFormatter : Type 0 where
  pub instance_id : String

-- `entry[key] = value`
abbrev pub put : String → Json → Fields → Fields
put key value done = field key value done
put key value (field k v rest) =
    if str_eq k key then field k value rest else field k v (put key value rest)

-- `key in entry`
abbrev pub holds : Option Json → Bool
holds none = false
holds (some v) = true

-- the loop over `record.__dict__`
abbrev pub add_extras : (String → Bool) → Fields → Fields → Fields
add_extras is_reserved done entry = entry
add_extras is_reserved (field key value rest) entry =
    if is_reserved key
    then add_extras is_reserved rest entry
    else if holds (get key entry)
    then add_extras is_reserved rest entry
    else add_extras is_reserved rest (put key value entry)

abbrev pub add_exception : Option String → Fields → Fields
add_exception none entry = entry
add_exception (some text) entry = put "exception" (str text) entry

module _ ⦃p : Platform⦄ where
  abbrev pub standard : JsonFormatter → LogRecord → Fields
  standard self record' = field "timestamp" (str (p.isoformat record'.created)) (
      field "level" (str record'.levelname) (
        field "logger" (str record'.name) (
          field "instance_id" (str self.instance_id) (field "message" (str record'.message) done))))

  -- `is_reserved` is membership in `_RESERVED_ATTRS`, the attributes of an empty LogRecord
  unfoldable pub entry : (String → Bool) → JsonFormatter → LogRecord → Fields
  entry is_reserved self record' =
      add_exception record'.exception
        (add_extras is_reserved record'.attributes (standard self record'))
