-- ===== src/Json/Objects.antt =====
-- The laws of an object's fields.
use mybro.Prelude.{
  String, ◌≡◌, refl, ap, ap₂, sym, ◌∙◌, Bool-cases, inl, inr, true, false, none, some, List, [],
  ◌∷◌, str_eq, eq_iff, if◌then◌else◌, arith,
}
use mybro.Json.{Value, Fields, end, field, to_list, from_list, lookup, insert, remove}

pub to_list-from_list : (vs : List Value) → to_list (from_list vs) ≡ vs
unfolding to_list from_list
to_list-from_list [] = refl
to_list-from_list (v ∷ vs) = rw (to_list-from_list vs)

pub lookup-insert :
    (k j : String) (v : Value) (fs : Fields)
    → lookup j (insert k v fs) ≡ (if str_eq k j then some v else lookup j fs)
unfolding lookup insert
lookup-insert k j v end = refl
lookup-insert k j v (field i w fs) =
    ground (arith, eq_iff k j, eq_iff i k, eq_iff i j, lookup-insert k j v fs)

pub lookup-remove :
    (k j : String) (fs : Fields)
    → lookup j (remove k fs) ≡ (if str_eq k j then none else lookup j fs)
unfolding lookup remove
lookup-remove k j end = ground arith
lookup-remove k j (field i w fs) =
    ground (arith, eq_iff k j, eq_iff i k, eq_iff i j, lookup-remove k j fs)

-- Writing what is there changes nothing.
pub insert_same : (k : String) (v : Value) (fs : Fields) → lookup k fs ≡ some v → insert k v fs ≡ fs
unfolding lookup insert
insert_same k v end h = absurd (ground arith)
insert_same k v (field j w fs) h = elim (Bool-cases (str_eq j k)) [
  | inl e ↦
      let same : j ≡ k = (eq_iff j k).0 e in
      let val : some w ≡ some v = rw (lookup, e) at h in
      let back : v ≡ w = ground arith in rw (insert, e) (ap₂ (λ i x. field i x fs) (sym same) back)
  | inr e ↦
      let h' : lookup k fs ≡ some v = rw (lookup, e) at h in
      rw (insert, e) (ap (field j w) (insert_same k v fs h'))
]

pub lookup-insert_self : (k : String) (v : Value) (fs : Fields) → lookup k (insert k v fs) ≡ some v
lookup-insert_self k v fs =
    let e : str_eq k k ≡ true = (eq_iff k k).1 refl in lookup-insert k k v fs ∙ rw e refl

pub lookup-insert_ne :
    (k j : String) (v : Value) (fs : Fields)
    → str_eq k j ≡ false
    → lookup j (insert k v fs) ≡ lookup j fs
lookup-insert_ne k j v fs e = lookup-insert k j v fs ∙ rw e refl

pub lookup-remove_self : (k : String) (fs : Fields) → lookup k (remove k fs) ≡ none
lookup-remove_self k fs =
    let e : str_eq k k ≡ true = (eq_iff k k).1 refl in lookup-remove k k fs ∙ rw e refl

pub lookup-remove_ne :
    (k j : String) (fs : Fields) → str_eq k j ≡ false → lookup j (remove k fs) ≡ lookup j fs
lookup-remove_ne k j fs e = lookup-remove k j fs ∙ rw e refl
