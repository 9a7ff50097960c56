-- ===== src/Lru/Lists.antt =====
-- The cache as a list of its entries, the newest first: an implementation with all the promises.
use mathlib.Core.Option
use mybro.Lru.{Lru}
use mybro.Prelude.{
  ℕ, zero, suc, ◌-◌, ◌≤◌, ◌≡◌, ◌≢◌, refl, ap, sym, ◌∙◌, Bool, true, false, Option, none, some, List,
  [], ◌∷◌, length, take, Bool-cases, Option-cases, inl, inr, if◌then◌else◌, arith,
}

eq_ne :
    {K : Type 0} (eq : K → K → Bool) (eq_sound : (j k : K) → eq j k ≡ true → j ≡ k) (j k : K)
    → j ≢ k
    → eq j k ≡ false
eq_ne eq eq_sound j k ne = elim (Bool-cases (eq j k)) [
  | inl e ↦ absurd (ne (eq_sound j k e))
  | inr e ↦ e
]

module _ {K V : Type 0} (eq : K → K → Bool) (eq_sound : (j k : K) → eq j k ≡ true → j ≡ k)
    (eq_self : (k : K) → eq k k ≡ true) (others : ℕ) where
  unfoldable pub lookup : K → List (K × V) → Option V
  lookup k [] = none
  lookup k ((j, v) ∷ c) = if eq j k then some v else lookup k c

  unfoldable pub delete : K → List (K × V) → List (K × V)
  delete k [] = []
  delete k ((j, v) ∷ c) = let rest = delete k c in if eq j k then c else (j, v) ∷ rest

  unfoldable pub delete_all : K → List (K × V) → List (K × V)
  delete_all k [] = []
  delete_all k ((j, v) ∷ c) = let rest = delete_all k c in if eq j k then rest else (j, v) ∷ rest

  unfoldable pub drop_last : List (K × V) → List (K × V)
  drop_last [] = []
  drop_last (e ∷ []) = []
  drop_last (e ∷ f ∷ c) = e ∷ drop_last (f ∷ c)

  unfoldable pub get : K → List (K × V) → Option V × List (K × V)
  get k c = elim (lookup k c) [ none ↦ (none, c) | some v ↦ (some v, (k, v) ∷ delete k c) ]

  unfoldable pub modify : K → (V → V) → List (K × V) → List (K × V)
  modify k f c = elim (lookup k c) [ none ↦ c | some v ↦ (k, f v) ∷ delete k c ]

  -- With room for `others` entries beside a new one.
  unfoldable pub put : K → V → List (K × V) → List (K × V)
  put k v c = elim (lookup k c) [ none ↦ (k, v) ∷ take others c | some _ ↦ (k, v) ∷ delete k c ]

  pub lookup-delete_ne : (j k : K) (c : List (K × V)) → j ≢ k → lookup j (delete k c) ≡ lookup j c
  unfolding lookup delete
  lookup-delete_ne j k [] ne = refl
  lookup-delete_ne j k ((i, v) ∷ c) ne = elim (Bool-cases (eq i k)) [
    | inl e ↦
        let s : i ≡ k = eq_sound i k e in
        let f : eq i j ≡ false = eq_ne eq eq_sound i j (λ q. ne (sym q ∙ s)) in rw (e, f) refl
    | inr e ↦ elim (Bool-cases (eq i j)) [
      | inl f ↦ rw (e, f) refl
      | inr f ↦ rw (e, f) (lookup-delete_ne j k c ne)
    ]
  ]

  pub length-delete :
      (k : K) (c : List (K × V)) (v : V)
      → lookup k c ≡ some v
      → suc (length (delete k c)) ≡ length c
  unfolding lookup delete
  length-delete k [] v h = absurd (ground arith)
  length-delete k ((i, w) ∷ c) v h = elim (Bool-cases (eq i k)) [
    | inl e ↦ rw e refl
    | inr e ↦
        let h' : lookup k c ≡ some v =
          let q : (if eq i k then some w else lookup k c) ≡ some v = h in rw e at q in
        rw e (ap suc (length-delete k c v h'))
  ]

  pub lookup-cons_self : (k : K) (v : V) (c : List (K × V)) → lookup k ((k, v) ∷ c) ≡ some v
  unfolding lookup
  lookup-cons_self k v c = rw (eq_self k) refl

  pub lookup-cons_ne :
      (j k : K) (v : V) (c : List (K × V)) → j ≢ k → lookup j ((k, v) ∷ c) ≡ lookup j c
  unfolding lookup
  lookup-cons_ne j k v c ne = rw (eq_ne eq eq_sound k j (λ q. ne (sym q))) refl

  pub lookup-take :
      (n : ℕ) (j : K) (w : V) (c : List (K × V))
      → lookup j (take n c) ≡ some w
      → lookup j c ≡ some w
  unfolding lookup
  lookup-take zero j w c h = absurd (ground arith)
  lookup-take (suc n) j w [] h = h
  lookup-take (suc n) j w ((i, v) ∷ c) h = elim (Bool-cases (eq i j)) [
    | inl e ↦ let q : some v ≡ some w = rw e at h in rw e q
    | inr e ↦ let q : lookup j (take n c) ≡ some w = rw e at h in rw e (lookup-take n j w c q)
  ]

  pub lookup-drop_last :
      (j : K) (w : V) (c : List (K × V)) → lookup j (drop_last c) ≡ some w → lookup j c ≡ some w
  unfolding lookup drop_last
  lookup-drop_last j w [] h = h
  lookup-drop_last j w (e ∷ []) h = absurd (ground arith)
  lookup-drop_last j w ((i, v) ∷ f ∷ c) h = elim (Bool-cases (eq i j)) [
    | inl e ↦ let q : some v ≡ some w = rw e at h in rw e q
    | inr e ↦
        let q : lookup j (drop_last (f ∷ c)) ≡ some w = rw e at h in
        rw e (lookup-drop_last j w (f ∷ c) q)
  ]

  pub length-drop_last : (c : List (K × V)) → length (drop_last c) ≡ length c - 1
  unfolding drop_last
  length-drop_last [] = omega arith
  length-drop_last (e ∷ []) = omega arith
  length-drop_last (e ∷ f ∷ c) = omega (arith, length-drop_last (f ∷ c))

  pub lookup-delete_all : (k : K) (c : List (K × V)) → lookup k (delete_all k c) ≡ none
  unfolding lookup delete_all
  lookup-delete_all k [] = refl
  lookup-delete_all k ((i, v) ∷ c) = elim (Bool-cases (eq i k)) [
    | inl e ↦ rw e (lookup-delete_all k c)
    | inr e ↦ rw (e, e) (lookup-delete_all k c)
  ]

  pub length-take-le : (n : ℕ) (c : List (K × V)) → length (take n c) ≤ length c
  length-take-le zero c = omega arith
  length-take-le (suc n) [] = omega arith
  length-take-le (suc n) (x ∷ c) = omega (arith, length-take-le n c)

  pub lookup-get : (j k : K) (c : List (K × V)) → lookup j (get k c).1 ≡ lookup j c
  unfolding get
  lookup-get j k c = elim (Option-cases (lookup k c)) [
    | inl e ↦ rw (get, e) refl
    | inr (v, e) ↦ elim (Bool-cases (eq k j)) [
      | inl s ↦
          let q : k ≡ j = eq_sound k j s in
          rw (get, e) (rw (← q) (lookup-cons_self k v (delete k c) ∙ sym e))
      | inr s ↦
          let ne : j ≢ k = λ q. let t = eq_self k in cc in
          rw (get, e) (lookup-cons_ne j k v (delete k c) ne ∙ lookup-delete_ne j k c ne)
    ]
  ]

  pub length-get : (k : K) (c : List (K × V)) → length (get k c).1 ≡ length c
  unfolding get
  length-get k c = elim (Option-cases (lookup k c)) [
    | inl e ↦ rw (get, e) refl
    | inr (v, e) ↦ rw (get, e) (length-delete k c v e)
  ]

  pub get-lookup : (k : K) (c : List (K × V)) → (get k c).0 ≡ lookup k c
  unfolding get
  get-lookup k c = elim (Option-cases (lookup k c)) [
    | inl e ↦ rw (get, e) refl
    | inr (v, e) ↦ rw (get, e) refl
  ]

  pub lookup-modify_self :
      (k : K) (f : V → V) (c : List (K × V)) → lookup k (modify k f c) ≡ Option.map f (lookup k c)
  unfolding modify
  lookup-modify_self k f c = elim (Option-cases (lookup k c)) [
    | inl e ↦ rw (modify, e) e
    | inr (v, e) ↦ rw (modify, e) (lookup-cons_self k (f v) (delete k c))
  ]

  pub lookup-modify_ne :
      (j k : K) (f : V → V) (c : List (K × V)) → j ≢ k → lookup j (modify k f c) ≡ lookup j c
  unfolding modify
  lookup-modify_ne j k f c ne = elim (Option-cases (lookup k c)) [
    | inl e ↦ rw (modify, e) refl
    | inr (v, e) ↦
        rw (modify, e) (lookup-cons_ne j k (f v) (delete k c) ne ∙ lookup-delete_ne j k c ne)
  ]

  pub length-modify : (k : K) (f : V → V) (c : List (K × V)) → length (modify k f c) ≡ length c
  unfolding modify
  length-modify k f c = elim (Option-cases (lookup k c)) [
    | inl e ↦ rw (modify, e) refl
    | inr (v, e) ↦ rw (modify, e) (length-delete k c v e)
  ]

  pub lookup-put_self : (k : K) (v : V) (c : List (K × V)) → lookup k (put k v c) ≡ some v
  unfolding put
  lookup-put_self k v c = elim (Option-cases (lookup k c)) [
    | inl e ↦ rw (put, e) (lookup-cons_self k v (take others c))
    | inr (w, e) ↦ rw (put, e) (lookup-cons_self k v (delete k c))
  ]

  pub lookup-put_ne :
      (j k : K) (v w : V) (c : List (K × V))
      → j ≢ k
      → lookup j (put k v c) ≡ some w
      → lookup j c ≡ some w
  unfolding put
  lookup-put_ne j k v w c ne h = elim (Option-cases (lookup k c)) [
    | inl e ↦
        let q : lookup j ((k, v) ∷ take others c) ≡ some w = rw (put, e) at h in
        lookup-take others j w c (sym (lookup-cons_ne j k v (take others c) ne) ∙ q)
    | inr (x, e) ↦
        let q : lookup j ((k, v) ∷ delete k c) ≡ some w = rw (put, e) at h in
        sym (lookup-delete_ne j k c ne) ∙ sym (lookup-cons_ne j k v (delete k c) ne) ∙ q
  ]

  pub length-put-le : (k : K) (v : V) (c : List (K × V)) → length (put k v c) ≤ suc (length c)
  unfolding put
  length-put-le k v c = elim (Option-cases (lookup k c)) [
    | inl e ↦ rw (put, e) (omega (arith, length-take-le others c))
    | inr (w, e) ↦ rw (put, e) (omega (arith, length-delete k c w e))
  ]

  pub length-take-cap : (n : ℕ) (c : List (K × V)) → length (take n c) ≤ n
  length-take-cap zero c = omega arith
  length-take-cap (suc n) [] = omega arith
  length-take-cap (suc n) (x ∷ c) = omega (arith, length-take-cap n c)

  abbrev pub list_lru : Lru K V
  list_lru = record {
    Cache = List (K × V);
    lookup = lookup;
    len = length;
    get = get;
    modify = modify;
    put = put;
    pop = delete_all;
    pop_lru = drop_last;
    create = λ cap. [];
    resize = take;
    len-create = λ cap. refl;
    lookup-resize = lookup-take;
    len-resize-le = length-take-cap;
    get-lookup = get-lookup;
    lookup-get = lookup-get;
    len-get = length-get;
    lookup-modify_self = lookup-modify_self;
    lookup-modify_ne = lookup-modify_ne;
    len-modify = length-modify;
    lookup-put_self = lookup-put_self;
    lookup-put_ne = lookup-put_ne;
    len-put-le = length-put-le;
    lookup-pop_self = lookup-delete_all;
    lookup-pop_lru = lookup-drop_last;
    len-pop_lru = length-drop_last;
  }
