-- ===== src/SchemaNorm/Refs.antt =====
-- What becomes of references.
use mybro.Json.{Value, Fields, string, object, end, field, lookup, as_str, fields_len}
use mybro.Prelude.{
  ℕ, zero, suc, String, str_eq, eq_iff, strip_prefix, ◌≡◌, refl, sym, subst, false, none, [],
  Option-cases, Bool-cases, inl, inr, ◌==◌, arith,
}
use mybro.SchemaNorm.{resolve_ref, exact_ref}

resolve_ref_empty : (r : String) → resolve_ref r [] [] ≡ none
unfolding resolve_ref
resolve_ref_empty r = elim (Option-cases (strip_prefix "#/definitions/" r)) [
  | inr (n, e) ↦ rw (resolve_ref, e) refl
  | inl e ↦ elim (Option-cases (strip_prefix "#/$defs/" r)) [
    | inl f ↦ rw (resolve_ref, e, f) refl
    | inr (n, f) ↦ rw (resolve_ref, e, f) refl
  ]
]

-- An object of one field has a reference or definitions, but not both.
ref_only : (v : Value) → exact_ref (field "$ref" v end) [] ≡ none
unfolding exact_ref
ref_only v = elim (Option-cases (as_str v)) [
  | inl e ↦ rw (exact_ref, e) refl
  | inr (s, e) ↦ rw (exact_ref, e) (resolve_ref_empty s)
]

no_target : (k : String) (v : Value) → exact_ref (field k v end) [] ≡ none
unfolding exact_ref fields_len lookup
no_target k v = elim (Bool-cases (str_eq k "$ref")) [
  | inl e ↦
      let same : k ≡ "$ref" = (eq_iff k "$ref").0 e in
      subst (λ j. exact_ref (field j v end) [] ≡ none) (sym same) (ref_only v)
  | inr e ↦ rw (exact_ref, lookup, e) refl
]

pub exact_ref-empty : (fs : Fields) → exact_ref fs [] ≡ none
unfolding exact_ref fields_len lookup
exact_ref-empty end = refl
exact_ref-empty (field k v end) = no_target k v
exact_ref-empty (field k v (field j w fs)) =
    let long : (fields_len (field k v (field j w fs)) == 1) ≡ false = ground arith in
    rw (exact_ref, long) refl

-- A reference to r below n objects, each with the definitions and the reference as a property.
unfoldable pub nested : ℕ → Value → String → Value
nested zero defs r = object (field "$ref" (string r) end)
nested (suc n) defs r =
    object (field "$defs" defs (field "properties" (object (field "id" (nested n defs r) end)) end))

-- A tool whose parameters are the schema.
abbrev pub tool_of : Value → Value
tool_of schema = object (field "function" (object (field "parameters" schema end)) end)
