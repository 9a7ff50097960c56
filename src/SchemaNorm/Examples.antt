-- ===== src/SchemaNorm/Examples.antt =====
-- Schemas at concrete inputs: tests, and the theorems applied.
use mybro.Json.{
  Value, Fields, null, bool, number, string, array, object, nil, cons, end, field, get, as_array,
  as_str, as_object, lookup, insert, remove, contains_key, to_list, from_list, put_back, fields_len,
  is_null,
}
use mybro.Prelude.{String, strip_prefix, ◌≡◌, refl, []}
use mybro.SchemaNorm.{
  normalize_tool, has_ref_or_defs, any_tool, needs_normalization, resolve_ref, pairs, exact_ref,
  map_values, is_null_schema, insert_all, put_alternatives, simplify_nullable_combinator, put_type,
  normalize_type_field, dedupe, normalize_enum_field, drop_null_const, post_passes,
  normalize_schema, normalize_tool, normalize_tool_schemas,
}

program : Unit {0}
unfolding has_ref_or_defs any_tool needs_normalization resolve_ref pairs exact_ref map_values
    is_null_schema insert_all put_alternatives simplify_nullable_combinator put_type
    normalize_type_field dedupe normalize_enum_field drop_null_const post_passes normalize_schema
    normalize_tool normalize_tool_schemas get as_array as_str as_object lookup insert remove
    contains_key to_list from_list put_back fields_len is_null strip_prefix
program = tt

-- Enough of serde_json's printer for these inputs.
abbrev print : Value → String
print (string s) = s
print null = "null"
print (bool b) = "bool"
print (number n) = "number"
print (array vs) = "array"
print (object fs) = "object"

-- {"type": ["string", "null"], "enum": ["a", null, "a"], "const": null}
abbrev nullable : Fields
nullable = field "type" (array (cons (string "string") (cons (string "null") nil))) (
    field "enum" (array (cons (string "a") (cons null (cons (string "a") nil))))
      (field "const" null end))

simplified :
    normalize_schema print 12 [] (object nullable)
    ≡ object (field "type" (string "string") (field "enum" (array (cons (string "a") nil)) end))
unfolding normalize_schema exact_ref fields_len map_values post_passes simplify_nullable_combinator
    normalize_type_field put_type normalize_enum_field dedupe drop_null_const lookup insert remove
    as_array as_str to_list from_list is_null
simplified = refl

-- {"$defs": {"Id": {"type": "string"}}, "properties": {"id": {"$ref": "#/$defs/Id"}}}
abbrev with_ref : Value
with_ref = object (
    field "$defs" (object (field "Id" (object (field "type" (string "string") end)) end)) (
      field "properties" (object (field "id" (object (field "$ref" (string "#/$defs/Id") end)) end))
        end))

-- The target is there, and the reference stays.
unresolved : normalize_schema print 12 [] with_ref ≡ with_ref
unfolding normalize_schema exact_ref fields_len map_values post_passes simplify_nullable_combinator
    normalize_type_field normalize_enum_field drop_null_const lookup as_str as_object pairs
    resolve_ref strip_prefix
unresolved = refl
