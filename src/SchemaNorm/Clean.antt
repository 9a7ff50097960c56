-- ===== src/SchemaNorm/Clean.antt =====
-- What every normalized object is like.
use mybro.Json.{Value, Fields, object, lookup, remove, is_null}
use mybro.Json.Objects.{lookup-remove_self, lookup-remove_ne}
use mybro.Prelude.{ℕ, suc, String, ◌≡◌, refl, sym, false, [], Bool-cases, inl, inr}
use mybro.SchemaNorm.{
  test, map_values, normalize_type_field, simplify_nullable_combinator, normalize_enum_field,
  drop_null_const, post_passes, normalize_schema,
}
use mybro.SchemaNorm.Enums.{EnumFixed, EnumFixed-lookup, fixed, normalize_enum_field-EnumFixed}
use mybro.SchemaNorm.Refs.{exact_ref-empty}

module _ (to_string : Value → String) where
  test-const : (fs : Fields) → test is_null (lookup "const" (drop_null_const to_string fs)) ≡ false
  unfolding drop_null_const
  test-const fs = elim (Bool-cases (test is_null (lookup "const" fs))) [
    | inl e ↦ rw (drop_null_const, e) (rw (lookup-remove_self "const" fs) refl)
    | inr e ↦ rw (drop_null_const, e) e
  ]

  settled :
      (fs : Fields) → test is_null (lookup "const" fs) ≡ false → drop_null_const to_string fs ≡ fs
  unfolding drop_null_const
  settled fs h = rw (drop_null_const, h) refl

  drop_null_const-EnumFixed :
      (fs : Fields) → EnumFixed to_string fs → EnumFixed to_string (drop_null_const to_string fs)
  unfolding drop_null_const
  drop_null_const-EnumFixed fs h = elim (Bool-cases (test is_null (lookup "const" fs))) [
    | inl e ↦
        rw (drop_null_const, e)
          (EnumFixed-lookup to_string fs (remove "const" fs)
            (sym (lookup-remove_ne "const" "enum" fs refl)) h)
    | inr e ↦ rw (drop_null_const, e) h
  ]

  -- As the program calls it, normalization above the depth limit turns each object into one whose
  -- `const` is not null, and which the passes over `const` and `enum` would leave as it is: the
  -- values of `enum` are no array, or some values without null or repetition.
  pub normalize_schema-settled :
      (depth : ℕ) (fs : Fields)
      → (out : Fields) × (normalize_schema to_string (suc depth) [] (object fs) ≡ object out)
        × (test is_null (lookup "const" out) ≡ false)
        × (drop_null_const to_string out ≡ out)
        × (normalize_enum_field to_string out ≡ out)
  unfolding normalize_schema post_passes
  normalize_schema-settled depth fs =
      let before = normalize_type_field (
        simplify_nullable_combinator "oneOf" (
          simplify_nullable_combinator "anyOf"
            (map_values (normalize_schema to_string depth []) fs))) in
      let enums = normalize_enum_field to_string before in
      (
        drop_null_const to_string enums,
        rw (normalize_schema, exact_ref-empty fs) refl,
        test-const enums,
        settled (drop_null_const to_string enums) (test-const enums),
        fixed to_string (drop_null_const to_string enums)
            (drop_null_const-EnumFixed enums (normalize_enum_field-EnumFixed to_string before)),
      )
