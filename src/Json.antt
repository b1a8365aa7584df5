-- ===== src/Json.antt =====
-- JSON values, as the program builds and reads them by Python's json module: a dict is a list of
-- named fields, in the order of insertion. Numbers are naturals (times, in ticks).
use realtime_notification_pl.Prelude.{ℕ, String, Bool, Option, none, some, str_eq, if◌then◌else◌}

mutual
  pub data Json : Type 0 where
    null : Json
    bool : Bool → Json
    num : ℕ → Json
    str : String → Json
    arr : Items → Json
    obj : Fields → Json

  pub data Items : Type 0 where
    nil : Items
    cons : Json → Items → Items

  pub data Fields : Type 0 where
    done : Fields
    field : String → Json → Fields → Fields

-- `d.get(name)`
abbrev pub get : String → Fields → Option Json
get name done = none
get name (field k v rest) = if str_eq k name then some v else get name rest
