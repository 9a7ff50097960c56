-- ===== src/Payload/Thinking.antt =====
-- Renaming the budget of `thinking`.
use mybro.Json.{Value, Fields, insert, remove, lookup, contains_key}
use mybro.Json.Objects.{lookup-insert, lookup-remove}
use mybro.Payload.{rename_budget}
use mybro.Prelude.{
  String, str_eq, ◌≡◌, refl, sym, ◌∙◌, false, ◌||◌, Option, none, some, Option-cases, inl, inr,
  arith,
}

-- What the source means by the budget: the one under its new name, or else under the old.
abbrev pub budget : Fields → Option Value
budget t = elim (lookup "budget_tokens" t) [ some v ↦ some v | none ↦ lookup "budgetTokens" t ]

budget_new : (t : Fields) (v : Value) → lookup "budget_tokens" t ≡ some v → budget t ≡ some v
budget_new t v e = rw (budget, e) refl

budget_old : (t : Fields) → lookup "budget_tokens" t ≡ none → budget t ≡ lookup "budgetTokens" t
budget_old t e = rw (budget, e) refl

unchanged : (t : Fields) (v : Value) → lookup "budget_tokens" t ≡ some v → rename_budget t ≡ t
unfolding rename_budget contains_key
unchanged t v e = elim (Option-cases (lookup "budgetTokens" t)) [
  | inl f ↦ rw (rename_budget, contains_key, f) refl
  | inr (w, f) ↦ rw (rename_budget, contains_key, f, e) refl
]

no_budget : (t : Fields) → lookup "budgetTokens" t ≡ none → rename_budget t ≡ t
unfolding rename_budget contains_key
no_budget t e = rw (rename_budget, contains_key, e) refl

renamed :
    (t : Fields) (v : Value)
    → lookup "budget_tokens" t ≡ none
    → lookup "budgetTokens" t ≡ some v
    → rename_budget t ≡ insert "budget_tokens" v (remove "budgetTokens" t)
unfolding rename_budget contains_key
renamed t v e f = rw (rename_budget, contains_key, f, e) refl

-- After the renaming, the budget stands under its new name wherever there was one under either name, and
-- every field with another name is as before.
pub lookup-rename_budget :
    (k : String) (t : Fields)
    → (str_eq "budgetTokens" k || str_eq "budget_tokens" k) ≡ false
    → (lookup "budget_tokens" (rename_budget t) ≡ budget t)
      × (lookup k (rename_budget t) ≡ lookup k t)
lookup-rename_budget k t other = elim (Option-cases (lookup "budget_tokens" t)) [
  | inr (v, e) ↦ rw (unchanged t v e) (e ∙ sym (budget_new t v e), refl)
  | inl e ↦ elim (Option-cases (lookup "budgetTokens" t)) [
    | inl f ↦ rw (no_budget t f) (e ∙ sym f ∙ sym (budget_old t e), refl)
    | inr (v, f) ↦ rw (renamed t v e f) (
      lookup-insert "budget_tokens" "budget_tokens" v (remove "budgetTokens" t)
          ∙ sym f
          ∙ sym (budget_old t e),
      lookup-insert "budget_tokens" k v (remove "budgetTokens" t)
          ∙ (let a : str_eq "budget_tokens" k ≡ false = ground arith in
              let b : str_eq "budgetTokens" k ≡ false = ground arith in
              rw (a, lookup-remove "budgetTokens" k t, b) refl),
    )
  ]
]
