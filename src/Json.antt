-- ===== src/Json.antt =====
-- The JSON values of serde_json that the program reads: an object is looked up by key, an array by
-- index, and a number is known by its two observations.
use udp_director.Prelude.{
  ℕ, zero, suc, String, Bool, Option, none, some, List, [], ◌∷◌, ◌==◌, string_eq, if◌then◌else◌,
}

-- `as_u64` and `to_string`
pub record Number : Type 0 where
  pub as_u64 : Option ℕ
  pub text : String

mutual
  pub data Value : Type 0 where
    null : Value
    bool : Bool → Value
    number : Number → Value
    string : String → Value
    array : Items → Value
    object : Fields → Value

  pub data Items : Type 0 where
    nil : Items
    item : Value → Items → Items

  pub data Fields : Type 0 where
    end : Fields
    field : String → Value → Fields → Fields

unfoldable pub elements : Items → List Value
elements nil = []
elements (item v vs) = v ∷ elements vs

unfoldable pub find_field : String → Fields → Option Value
find_field key end = none
find_field key (field k v fs) = if k == key then some v else find_field key fs

unfoldable pub find_item : ℕ → Items → Option Value
find_item n nil = none
find_item zero (item v vs) = some v
find_item (suc n) (item v vs) = find_item n vs

-- `Value::get` with a text and with an index
unfoldable pub get_field : String → Value → Option Value
unfolding find_field
get_field key (object fs) = find_field key fs
get_field key _ = none

unfoldable pub get_index : ℕ → Value → Option Value
unfolding find_item
get_index n (array vs) = find_item n vs
get_index n _ = none

-- The patterns `Some(Value::String(s))`, `Some(Value::Number(n))` and `Some(Value::Array(a))`.
abbrev pub as_string : Option Value → Option String
as_string (some (string s)) = some s
as_string _ = none

abbrev pub as_number : Option Value → Option Number
as_number (some (number n)) = some n
as_number _ = none

abbrev pub as_array : Option Value → Option (List Value)
as_array (some (array vs)) = some (elements vs)
as_array _ = none
