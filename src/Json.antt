-- ===== src/Json.antt =====
-- A parsed JSON value, as Python's `json` gives it: an object is a dict, whose keys differ. A number
-- is kept as its literal.
use gen_ai_backend.Prelude.{String, str_eq, Bool, Option, none, some, if◌then◌else◌}

mutual
  pub data Json : Type 0 where
    null : Json
    bool : Bool → Json
    num : String → Json
    str : String → Json
    arr : Items → Json
    obj : Fields → Json

  pub data Items : Type 0 where
    nil : Items
    cons : Json → Items → Items

  pub data Fields : Type 0 where
    empty : Fields
    field : String → Json → Fields → Fields

-- `d.get(key)`, with `none` for a key that is not in `d`.
abbrev pub get : String → Fields → Option Json
get key empty = none
get key (field k v rest) = if str_eq k key then some v else get key rest

-- `d.get(key)` with its default None.
abbrev pub or_null : Option Json → Json
or_null none = null
or_null (some v) = v
