-- ===== src/SchemaNorm/Enums.antt =====
-- The values of `enum`: no null, none twice, and no other is lost.
use mybro.Json.{Value, Fields, array, lookup, insert, remove, as_array, is_null, from_list}
use mybro.Json.Objects.{to_list-from_list, lookup-insert_self, lookup-remove_self, insert_same}
use mybro.Prelude.{
  String, str_eq, eq_iff, ◌≡◌, refl, sym, ap, ◌∙◌, Bool, true, not, ◌||◌, Option, none, some, List,
  [], ◌∷◌, map, filter, filter-true, filter-false, Option-cases, Bool-cases, ◌⊎◌, inl, inr, arith,
}
use mybro.SchemaNorm.{array_at, contains_text, dedupe, put_enum, normalize_enum_field}

abbrev pub not_null : Value → Bool
not_null v = not (is_null v)

-- The values listed under `enum`; none where there is no array.
abbrev pub values : Fields → List Value
values fs = elim (array_at "enum" fs) [ none ↦ [] | some vs ↦ vs ]

array_at-lookup :
    (k : String) (vs : List Value) (fs : Fields)
    → lookup k fs ≡ some (array (from_list vs))
    → array_at k fs ≡ some vs
unfolding as_array
array_at-lookup k vs fs h = rw (array_at, h) (ap some (to_list-from_list vs))

array_at-none : (k : String) (fs : Fields) → lookup k fs ≡ none → array_at k fs ≡ none
array_at-none k fs h = rw (array_at, h) refl

module _ (to_string : Value → String) where
  -- The values that the two passes keep of an array.
  abbrev pub kept_of : List Value → List Value
  kept_of arr = dedupe to_string [] (filter not_null arr)

  dedupe_idem :
      (seen : List String) (vs : List Value)
      → dedupe to_string seen (dedupe to_string seen vs) ≡ dedupe to_string seen vs
  unfolding dedupe
  dedupe_idem seen [] = refl
  dedupe_idem seen (v ∷ vs) = elim (Bool-cases (contains_text (to_string v) seen)) [
    | inl e ↦ rw (dedupe, e) (dedupe_idem seen vs)
    | inr e ↦ rw (dedupe, e) (rw (dedupe, e) (ap (◌∷◌ v) (dedupe_idem (to_string v ∷ seen) vs)))
  ]

  dedupe-filter :
      (seen : List String) (vs : List Value)
      → filter not_null (dedupe to_string seen (filter not_null vs))
        ≡ dedupe to_string seen (filter not_null vs)
  unfolding dedupe
  dedupe-filter seen [] = refl
  dedupe-filter seen (v ∷ vs) = elim (Bool-cases (not_null v)) [
    | inr n ↦ rw (filter-false not_null v vs n) (dedupe-filter seen vs)
    | inl n ↦ elim (Bool-cases (contains_text (to_string v) seen)) [
      | inl e ↦ rw (filter-true not_null v vs n) (rw (dedupe, e) (dedupe-filter seen vs))
      | inr e ↦
          let rest = dedupe to_string (to_string v ∷ seen) (filter not_null vs) in
          rw (filter-true not_null v vs n) (
            rw (dedupe, e)
              (filter-true not_null v rest n ∙ ap (◌∷◌ v) (dedupe-filter (to_string v ∷ seen) vs)))
    ]
  ]

  pub kept_of_idem : (arr : List Value) → kept_of (kept_of arr) ≡ kept_of arr
  kept_of_idem arr =
      ap (dedupe to_string []) (dedupe-filter [] arr) ∙ dedupe_idem [] (filter not_null arr)

  -- The texts of the values that are kept, beside those seen, are those of all values.
  dedupe-texts :
      (k : String) (seen : List String) (vs : List Value)
      → (contains_text k seen || contains_text k (map to_string (dedupe to_string seen vs)))
        ≡ (contains_text k seen || contains_text k (map to_string vs))
  unfolding dedupe
  dedupe-texts k seen [] = refl
  dedupe-texts k seen (v ∷ vs) = elim (Bool-cases (contains_text (to_string v) seen)) [
    | inl e ↦ elim (Bool-cases (str_eq (to_string v) k)) [
      | inl f ↦
          let same : to_string v ≡ k = (eq_iff (to_string v) k).0 f in
          let there : contains_text k seen ≡ true = rw same at e in rw there refl
      | inr f ↦ rw (dedupe, e, f) (dedupe-texts k seen vs)
    ]
    | inr e ↦ let ih = dedupe-texts k (to_string v ∷ seen) vs in rw (dedupe, e) (ground arith)
  ]

  values-put_enum : (ks : List Value) (fs : Fields) → values (put_enum to_string ks fs) ≡ ks
  values-put_enum [] fs =
      rw (values, array_at-none "enum" (remove "enum" fs) (lookup-remove_self "enum" fs)) refl
  values-put_enum (v ∷ vs) fs =
      rw
        (
          values,
          array_at-lookup "enum" (v ∷ vs) (insert "enum" (array (from_list (v ∷ vs))) fs)
              (lookup-insert_self "enum" (array (from_list (v ∷ vs))) fs),
        )
        refl

  -- The field is absent or no array, or an array that the pass would leave.
  pub EnumFixed : Fields → Type 0
  EnumFixed fs =
      (array_at "enum" fs ≡ none)
      ⊎ ((v : Value) × (vs : List Value) × (lookup "enum" fs ≡ some (array (from_list (v ∷ vs))))
          × (kept_of (v ∷ vs) ≡ v ∷ vs))

  pub fixed : (fs : Fields) → EnumFixed fs → normalize_enum_field to_string fs ≡ fs
  unfolding EnumFixed normalize_enum_field
  fixed fs (inl e) = rw (normalize_enum_field, e) refl
  fixed fs (inr (v, vs, at, keep)) =
      let a : array_at "enum" fs ≡ some (v ∷ vs) = array_at-lookup "enum" (v ∷ vs) fs at in
      rw (normalize_enum_field, a, keep) (insert_same "enum" (array (from_list (v ∷ vs))) fs at)

  put_enum-EnumFixed :
      (ks : List Value) (fs : Fields) → kept_of ks ≡ ks → EnumFixed (put_enum to_string ks fs)
  unfolding EnumFixed
  put_enum-EnumFixed [] fs keep =
      inl (array_at-none "enum" (remove "enum" fs) (lookup-remove_self "enum" fs))
  put_enum-EnumFixed (v ∷ vs) fs keep =
      inr (v, vs, lookup-insert_self "enum" (array (from_list (v ∷ vs))) fs, keep)

  pub normalize_enum_field-EnumFixed : (fs : Fields) → EnumFixed (normalize_enum_field to_string fs)
  unfolding normalize_enum_field EnumFixed
  normalize_enum_field-EnumFixed fs = elim (Option-cases (array_at "enum" fs)) [
    | inl e ↦ rw (normalize_enum_field, e) (inl e)
    | inr (arr, e) ↦
        rw (normalize_enum_field, e) (put_enum-EnumFixed (kept_of arr) fs (kept_of_idem arr))
  ]

  pub EnumFixed-lookup :
      (fs gs : Fields) → lookup "enum" fs ≡ lookup "enum" gs → EnumFixed fs → EnumFixed gs
  unfolding EnumFixed
  EnumFixed-lookup fs gs same (inl e) = inl (
      sym
        (ap (λ o. elim o as (λ c. Option (List Value)) [ none ↦ none | some v ↦ as_array v ]) same)
      ∙ e)
  EnumFixed-lookup fs gs same (inr (v, vs, at, keep)) = inr (v, vs, sym same ∙ at, keep)

  -- Of the values of an array under `enum`, those with a text k are kept exactly if some value that is
  -- not null has that text; and the pass changes nothing where it was made before.
  pub normalize_enum_field-values :
      (k : String) (arr : List Value) (fs : Fields)
      → array_at "enum" fs ≡ some arr
      → (values (normalize_enum_field to_string fs) ≡ kept_of arr)
        × (contains_text k (map to_string (kept_of arr))
            ≡ contains_text k (map to_string (filter not_null arr)))
        × (normalize_enum_field to_string (normalize_enum_field to_string fs)
            ≡ normalize_enum_field to_string fs)
  unfolding normalize_enum_field
  normalize_enum_field-values k arr fs e = (
    rw (normalize_enum_field, e) (values-put_enum (kept_of arr) fs),
    dedupe-texts k [] (filter not_null arr),
    fixed (normalize_enum_field to_string fs) (normalize_enum_field-EnumFixed fs),
  )
