-- ===== src/Domain/Json.antt =====
-- The values of Go's `map[string]any`: event payloads, commands and error details.
use update_service.Base.{ℕ, String, Bool, Option, none, some, str_eq, if◌then◌else◌}

mutual
  pub data Json : Type 0 where
    null : Json
    bool : Bool → Json
    num : ℕ → Json
    str : String → Json
    arr : Items → Json
    obj : Fields → Json

  pub data Items : Type 0 where
    nil : Items
    cons : Json → Items → Items

  pub data Fields : Type 0 where
    end : Fields
    field : String → Json → Fields → Fields

-- `m[key]`: the value and whether it is there.
abbrev pub member : String → Fields → Option Json
member k end = none
member k (field j v fs) = if str_eq k j then some v else member k fs

-- `s, _ := m[key].(string)`: the empty string if the value is missing or of another type.
abbrev pub as_string : Option Json → String
as_string (some (str s)) = s
as_string _ = ""

-- `n, _ := m[key].(float64)`: zero if the value is missing or of another type.
abbrev pub as_number : Option Json → ℕ
as_number (some (num n)) = n
as_number _ = 0
