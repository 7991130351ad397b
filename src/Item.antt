-- ===== src/Item.antt =====
-- Items (store.go) and the JSON codec that the standard library gives.
use contractdb.Base.{ℕ, Bool, Option, List, Bytes}

-- The `any` values of an item: what flatten makes and json.Unmarshal returns. A `number` is a
-- json.Number, which keeps its text; a `float` is a float64, given by the decimal that
-- strconv.FormatFloat(t, 'f', -1, 64) writes; `strings` is a []string.
mutual
  pub data Value : Type 0 where
    null : Value
    string : Bytes → Value
    bool : Bool → Value
    number : Bytes → Value
    float : Bytes → Value
    strings : List Bytes → Value
    array : Values → Value
    object : Fields → Value

  pub data Values : Type 0 where
    nil : Values
    cons : Value → Values → Values

  pub data Fields : Type 0 where
    end : Fields
    field : Bytes → Value → Fields → Fields

-- `type Item map[string]any`; `none` is the nil map.
abbrev pub Item : Type 0
Item = Option Fields

pub record Entry : Type 0 where
  pub key : Bytes
  pub item : Item

-- encoding/json as the program calls it; `none` is an error.
pub record Json : Type 0 where
  pub marshal : Item → Option Bytes
  pub valid : Bytes → Bool
  pub unmarshal : Bytes → Option Item
  -- json.Marshal of a map of strings to strings or counters, in the order given
  pub marshal_status : Bytes → Bytes → Bytes
  pub marshal_counters : List (Bytes × ℕ) → Bytes
