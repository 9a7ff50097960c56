-- ===== src/Access/Granted.antt =====
-- Whom `check_auth` lets in.
use mybro.Access.{Headers, provided, is_valid, grants, check_auth}
use mybro.Config.{Config}
use mybro.Prelude.{
  ℕ, zero, suc, ◌≡◌, refl, sym, subst, ◌↔◌, ◌⊎◌, inl, inr, String, Bool, true, ◌||◌, Option, none,
  some, List, [], ◌∷◌, arith, get_elem?, Bool-cases, ap,
}

-- Some key at an index.
abbrev pub Listed : String → List String → Type 0
Listed key ks = (j : ℕ) × (get_elem? ks j ≡ some key)

module _ (ct_eq : String → String → Bool)
    (ct_eq_iff : (a b : String) → (ct_eq a b ≡ true) ↔ (a ≡ b)) where
  is_valid-Listed : (key : String) (ks : List String) → is_valid ct_eq key ks ≡ true → Listed key ks
  unfolding is_valid
  is_valid-Listed key [] h = absurd (ground arith)
  is_valid-Listed key (k ∷ ks) h = elim (Bool-cases (ct_eq key k)) [
    | inl e ↦ (0, ap some (sym ((ct_eq_iff key k).0 e)))
    | inr e ↦
        let rest : is_valid ct_eq key ks ≡ true =
          let q : (ct_eq key k || is_valid ct_eq key ks) ≡ true = h in rw e at q in
        let (j, at_j) = is_valid-Listed key ks rest in (suc j, at_j)
  ]

  Listed-is_valid :
      (key : String) (ks : List String) (j : ℕ)
      → get_elem? ks j ≡ some key
      → is_valid ct_eq key ks ≡ true
  unfolding is_valid
  Listed-is_valid key [] j h = absurd (ground arith)
  Listed-is_valid key (k ∷ ks) zero h =
      let same : k ≡ key = ground arith in rw (is_valid, (ct_eq_iff key k).1 (sym same)) refl
  Listed-is_valid key (k ∷ ks) (suc j) h = elim (Bool-cases (ct_eq key k)) [
    | inl e ↦ rw (is_valid, e) refl
    | inr e ↦ rw (is_valid, e) (Listed-is_valid key ks j h)
  ]

  grants_iff :
      (ks : List String) (o : Option String)
      → (grants ct_eq ks o ≡ true) ↔ ((ks ≡ []) ⊎ ((key : String) × (o ≡ some key) × Listed key ks))
  unfolding grants
  grants_iff [] o = (λ h. inl refl, λ h. refl)
  grants_iff (k ∷ ks) none = (
    λ h. absurd (ground arith),
    λ h. elim h [ inl e ↦ absurd (ground arith) | inr (key, e, l) ↦ absurd (ground arith) ],
  )
  grants_iff (k ∷ ks) (some key) = (
    λ h. inr (key, refl, is_valid-Listed key (k ∷ ks) h),
    λ h. elim h [
      | inl e ↦ absurd (ground arith)
      | inr (key', e, l) ↦
          let same : key' ≡ key = ground arith in
          subst (λ x. is_valid ct_eq x (k ∷ ks) ≡ true) same (Listed-is_valid key' (k ∷ ks) l.0 l.1)
    ],
  )

  -- A request is let in exactly if no keys are configured, or the key it brings, from `x-api-key` or
  -- else after `Bearer `, is one of them.
  pub check_auth_iff :
      (cfg : Config) (h : Headers)
      → (check_auth ct_eq cfg h ≡ true) ↔ (
          (cfg.api_keys ≡ [])
          ⊎ ((key : String) × (provided h ≡ some key) × Listed key cfg.api_keys))
  unfolding check_auth
  check_auth_iff cfg h = grants_iff cfg.api_keys (provided h)
