-- ===== src/SchemaNorm.antt =====
-- src/schema_norm.rs: the JSON schemas of tools, normalized in place. Each function takes what it is
-- called on and gives what its changes leave. The canonical text of a value is serde_json's.
pub mod Refs
pub mod Enums
pub mod Clean
mod Examples
use mybro.Json.{
  Value, Items, Fields, null, bool, number, string, array, object, nil, cons, end, field, get,
  get_then, as_array, as_str, lookup, insert, remove, contains_key, to_list, from_list, put_back,
  as_object, fields_len, is_null,
}
use mybro.Prelude.{
  ℕ, zero, suc, String, str_eq, strip_prefix, is_empty, Bool, true, false, not, ◌&&◌, ◌||◌, Option,
  none, some, List, [], ◌∷◌, ◌++◌, map, filter, ◌==◌, if◌then◌else◌,
}

-- The scan for references and definitions at any depth.
unfoldable mutual
  unfolding contains_key lookup

  pub has_ref_or_defs : Value → Bool
  has_ref_or_defs (object fs) =
      (contains_key "$ref" fs || contains_key "$defs" fs || contains_key "definitions" fs)
      || any_field fs
  has_ref_or_defs (array vs) = any_item vs
  has_ref_or_defs null = false
  has_ref_or_defs (bool b) = false
  has_ref_or_defs (number n) = false
  has_ref_or_defs (string s) = false

  pub any_field : Fields → Bool
  any_field end = false
  any_field (field k v fs) = has_ref_or_defs v || any_field fs

  pub any_item : Items → Bool
  any_item nil = false
  any_item (cons v vs) = has_ref_or_defs v || any_item vs

-- `tool.get("function").and_then(|f| f.get("parameters"))`
abbrev pub parameters : Value → Option Value
parameters tool = get_then "function" (get "parameters") tool

unfoldable pub any_tool : List Value → Bool
unfolding has_ref_or_defs
any_tool [] = false
any_tool (tool ∷ tools) =
    elim (parameters tool) [ none ↦ false | some p ↦ has_ref_or_defs p ] || any_tool tools

unfoldable pub needs_normalization : Value → Bool
needs_normalization tools = elim (as_array tools) [ none ↦ false | some ts ↦ any_tool ts ]

abbrev pub assoc : String → List (String × Value) → Option Value
assoc k [] = none
assoc k ((j, v) ∷ kvs) = if str_eq j k then some v else assoc k kvs

unfoldable pub resolve_ref : String → List (String × Value) → List (String × Value) → Option Value
unfolding strip_prefix
resolve_ref ref_str local_defs defs =
    elim (elim (strip_prefix "#/definitions/" ref_str) as (λ o. Option String) [
      | some name ↦ some name
      | none ↦ strip_prefix "#/$defs/" ref_str
    ]) [
      | none ↦ none
      | some name ↦ elim (assoc name local_defs) [ some v ↦ some v | none ↦ assoc name defs ]
    ]

-- The fields of an object below a key, as pairs.
unfoldable pub pairs : Fields → List (String × Value)
pairs end = []
pairs (field k v fs) = (k, v) ∷ pairs fs

abbrev pub pairs_at : String → Fields → List (String × Value)
pairs_at k fs = elim (lookup k fs) as (λ o. List (String × Value)) [
  | none ↦ []
  | some v ↦ elim (as_object v) [ none ↦ [] | some inner ↦ pairs inner ]
]

-- Is this exactly { "$ref": "..." } with a target?
unfoldable pub exact_ref : Fields → List (String × Value) → Option Value
unfolding fields_len lookup as_object pairs resolve_ref as_str
exact_ref fs defs =
    if fields_len fs == 1
    then elim (lookup "$ref" fs) [
      | none ↦ none
      | some r ↦ elim (as_str r) [
        | none ↦ none
        | some ref_str ↦ resolve_ref ref_str (pairs_at "definitions" fs ++ pairs_at "$defs" fs) defs
      ]
    ]
    else none

abbrev pub is_skipped : String → Bool
is_skipped k = str_eq k "definitions" || str_eq k "$defs" || str_eq k "nullable"

unfoldable pub map_values : (Value → Value) → Fields → Fields
map_values f end = end
map_values f (field k v fs) = field k (if is_skipped k then v else f v) (map_values f fs)

abbrev pub is_text : String → Value → Bool
is_text t v = elim (as_str v) [ none ↦ false | some s ↦ str_eq s t ]

abbrev pub test : (Value → Bool) → Option Value → Bool
test p none = false
test p (some v) = p v

-- `[null]`
abbrev pub only_null : Value → Bool
only_null v = elim (as_array v) [
  | none ↦ false
  | some vs ↦ elim vs [ [] ↦ false | w ∷ ws ↦ elim ws [ [] ↦ is_null w | _ ∷ _ ↦ false ] ]
]

unfoldable pub is_null_schema : Value → Bool
is_null_schema (object o) =
    (fields_len o == 1 && test (is_text "null") (lookup "type" o))
    || (fields_len o == 1 && test is_null (lookup "const" o))
    || (fields_len o == 1 && test only_null (lookup "enum" o))
is_null_schema null = false
is_null_schema (bool b) = false
is_null_schema (number n) = false
is_null_schema (string s) = false
is_null_schema (array vs) = false

-- `for (k, v) in inlined_obj { obj.insert(k, v); }`
unfoldable pub insert_all : Fields → Fields → Fields
insert_all end fs = fs
insert_all (field k v o) fs = insert_all o (insert k v fs)

-- What an array below a key becomes, for the elements that are kept.
unfoldable pub put_alternatives : String → List Value → Fields → Fields
put_alternatives key [] fs = remove key fs
put_alternatives key (v ∷ []) fs = elim (as_object v) [
  | some inlined ↦ insert_all inlined (remove key fs)
  | none ↦ insert key (array (from_list (v ∷ []))) fs
]
put_alternatives key (v ∷ w ∷ vs) fs = insert key (array (from_list (v ∷ w ∷ vs))) fs

abbrev pub array_at : String → Fields → Option (List Value)
array_at k fs = elim (lookup k fs) [ none ↦ none | some v ↦ as_array v ]

unfoldable pub simplify_nullable_combinator : String → Fields → Fields
simplify_nullable_combinator key fs = elim (array_at key fs) [
  | none ↦ fs
  | some arr ↦ put_alternatives key (filter (λ s. not (is_null_schema s)) arr) fs
]

abbrev pub keeps_type : Value → Bool
keeps_type v =
    if is_null v
    then false
    else elim (as_str v) [ none ↦ true | some s ↦ not (is_empty s) && not (str_eq s "null") ]

unfoldable pub put_type : List Value → Fields → Fields
put_type [] fs = remove "type" fs
put_type (v ∷ []) fs = insert "type" v fs
put_type (v ∷ w ∷ vs) fs = insert "type" (array (from_list (v ∷ w ∷ vs))) fs

unfoldable pub normalize_type_field : Fields → Fields
normalize_type_field fs = elim (array_at "type" fs) [
  | none ↦ fs
  | some arr ↦ put_type (filter keeps_type arr) fs
]

abbrev pub contains_text : String → List String → Bool
contains_text k [] = false
contains_text k (j ∷ js) = str_eq j k || contains_text k js

-- `serde_json::to_string`.
module _ (to_string : Value → String) where
  -- The second `retain`, with the keys that were seen.
  unfoldable pub dedupe : List String → List Value → List Value
  dedupe seen [] = []
  dedupe seen (v ∷ vs) = elim (contains_text (to_string v) seen) [
    | true ↦ dedupe seen vs
    | false ↦ v ∷ dedupe (to_string v ∷ seen) vs
  ]

  abbrev pub put_enum : List Value → Fields → Fields
  put_enum [] fs = remove "enum" fs
  put_enum (v ∷ vs) fs = insert "enum" (array (from_list (v ∷ vs))) fs

  unfoldable pub normalize_enum_field : Fields → Fields
  normalize_enum_field fs = elim (array_at "enum" fs) [
    | none ↦ fs
    | some arr ↦ put_enum (dedupe [] (filter (λ v. not (is_null v)) arr)) fs
  ]

  unfoldable pub drop_null_const : Fields → Fields
  drop_null_const fs = if test is_null (lookup "const" fs) then remove "const" fs else fs

  unfoldable pub post_passes : Fields → Fields
  post_passes fs = drop_null_const (
      normalize_enum_field (
        normalize_type_field
          (simplify_nullable_combinator "oneOf" (simplify_nullable_combinator "anyOf" fs))))

  -- `defs` is passed down as it is. A clone of a definition starts with no definitions.
  unfoldable pub normalize_schema : ℕ → List (String × Value) → Value → Value
  normalize_schema zero defs node = node
  normalize_schema (suc depth) defs (object fs) = elim (exact_ref fs defs) [
    | some resolved ↦ normalize_schema depth [] resolved
    | none ↦ object (post_passes (map_values (normalize_schema depth defs) fs))
  ]
  normalize_schema (suc depth) defs null = null
  normalize_schema (suc depth) defs (bool b) = bool b
  normalize_schema (suc depth) defs (number n) = number n
  normalize_schema (suc depth) defs (string s) = string s
  normalize_schema (suc depth) defs (array vs) = array vs

  abbrev pub max_depth : ℕ
  max_depth = 12

  unfoldable pub normalize_tool : Value → Value
  normalize_tool tool = elim (get "function" tool) [
    | none ↦ tool
    | some f ↦ elim (get "parameters" f) [
      | none ↦ tool
      | some params ↦
          put_back "function" (put_back "parameters" (normalize_schema max_depth [] params) f) tool
    ]
  ]

  unfoldable pub normalize_tool_schemas : Value → Value
  normalize_tool_schemas tools =
      if not (needs_normalization tools) then tools else elim (as_array tools) [
        | none ↦ tools
        | some ts ↦ array (from_list (map normalize_tool ts))
      ]
