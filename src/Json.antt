-- ===== src/Json.antt =====
-- JSON values as `serde_json::Value` documents them, and the accessors that the source calls.
-- An object is its list of fields; the order of the keys, which only printing shows, is not modelled.
pub mod Objects
use mybro.Prelude.{
  ℕ, ◌+◌, String, Bool, true, false, Option, none, some, List, [], ◌∷◌, str_eq, if◌then◌else◌,
}

-- A number is a `u64`, a negative `i64` (-(n + 1) for `neg_int n`), or a float by its bits.
pub data Number : Type 0 where
  pos_int neg_int float : ℕ → Number

mutual
  pub data Value : Type 0 where
    null : Value
    bool : Bool → Value
    number : Number → Value
    string : String → Value
    array : Items → Value
    object : Fields → Value

  pub data Items : Type 0 where
    nil : Items
    cons : Value → Items → Items

  pub data Fields : Type 0 where
    end : Fields
    field : String → Value → Fields → Fields

unfoldable pub to_list : Items → List Value
to_list nil = []
to_list (cons v vs) = v ∷ to_list vs

unfoldable pub from_list : List Value → Items
from_list [] = nil
from_list (v ∷ vs) = cons v (from_list vs)

-- `Map::get`, `Map::insert` and `Map::remove`.
unfoldable pub lookup : String → Fields → Option Value
lookup k end = none
lookup k (field j v fs) = if str_eq j k then some v else lookup k fs

unfoldable pub insert : String → Value → Fields → Fields
insert k v end = field k v end
insert k v (field j w fs) = if str_eq j k then field k v fs else field j w (insert k v fs)

unfoldable pub remove : String → Fields → Fields
remove k end = end
remove k (field j v fs) = if str_eq j k then remove k fs else field j v (remove k fs)

unfoldable pub contains_key : String → Fields → Bool
contains_key k fs = elim (lookup k fs) [ none ↦ false | some _ ↦ true ]

-- `Value::get` with a text: `None` on what is no object.
unfoldable pub get : String → Value → Option Value
get k (object fs) = lookup k fs
get k null = none
get k (bool b) = none
get k (number n) = none
get k (string s) = none
get k (array vs) = none

unfoldable pub as_array : Value → Option (List Value)
as_array (array vs) = some (to_list vs)
as_array null = none
as_array (bool b) = none
as_array (number n) = none
as_array (string s) = none
as_array (object fs) = none

unfoldable pub as_str : Value → Option String
as_str (string s) = some s
as_str null = none
as_str (bool b) = none
as_str (number n) = none
as_str (array vs) = none
as_str (object fs) = none

unfoldable pub as_bool : Value → Option Bool
as_bool (bool b) = some b
as_bool null = none
as_bool (number n) = none
as_bool (string s) = none
as_bool (array vs) = none
as_bool (object fs) = none

unfoldable pub as_u64 : Value → Option ℕ
as_u64 (number (pos_int n)) = some n
as_u64 (number (neg_int n)) = none
as_u64 (number (float n)) = none
as_u64 null = none
as_u64 (bool b) = none
as_u64 (string s) = none
as_u64 (array vs) = none
as_u64 (object fs) = none

-- `v.get(k).and_then(f)`.
abbrev pub get_then {ℓ} : {A : Type ℓ} → String → (Value → Option A) → Value → Option A
get_then k f v = elim (get k v) [ none ↦ none | some w ↦ f w ]

-- A write to a field that is there, through `get_mut`.
unfoldable pub put_back : String → Value → Value → Value
put_back k w (object fs) = object (insert k w fs)
put_back k w null = null
put_back k w (bool b) = bool b
put_back k w (number n) = number n
put_back k w (string s) = string s
put_back k w (array vs) = array vs

-- `as_object`.
unfoldable pub as_object : Value → Option Fields
as_object (object fs) = some fs
as_object null = none
as_object (bool b) = none
as_object (number n) = none
as_object (string s) = none
as_object (array vs) = none

unfoldable pub is_null : Value → Bool
is_null null = true
is_null (bool b) = false
is_null (number n) = false
is_null (string s) = false
is_null (array vs) = false
is_null (object fs) = false

-- `Map::len`.
unfoldable pub fields_len : Fields → ℕ
fields_len end = 0
fields_len (field k v fs) = fields_len fs + 1
