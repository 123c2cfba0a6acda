-- ===== src/Json.antt =====
-- The values of encoding/json that the providers hand through: `any` and `map[string]any`. How
-- they are written and read is a parameter of the code that calls json.Marshal and json.Unmarshal.
use crated.Prelude.{ℕ, Bool, String, Option, none, some}

mutual
  pub data Json : Type 0 where
    null : Json
    bool : Bool → Json
    number : ℕ → Json
    text : String → Json
    array : Items → Json
    object : Fields → Json

  pub data Items : Type 0 where
    nil : Items
    cons : Json → Items → Items

  pub data Fields : Type 0 where
    end : Fields
    field : String → Json → Fields → Fields

-- A `map[string]any`; `none` is the nil map.
abbrev pub Map : Type 0
Map = Option Fields

-- json.Marshal of an `any` (`none` is its error) and json.Unmarshal into a nil map, which leaves it
-- nil where it fails.
pub record Codec : Type 0 where
  pub marshal : Json → Option String
  pub unmarshal : String → Option Map

-- The `any` that holds a map.
abbrev pub of_map : Map → Json
of_map none = null
of_map (some fs) = object fs

-- string(b) where `b, _ := json.Marshal(m)`
abbrev pub marshalled : Codec → Map → String
marshalled codec m = elim (codec.marshal (of_map m)) [ none ↦ "" | some s ↦ s ]

-- `var m map[string]any` behind `_ = json.Unmarshal(…, &m)`
abbrev pub unmarshalled : Codec → String → Map
unmarshalled codec s = elim (codec.unmarshal s) [ none ↦ none | some m ↦ m ]
