-- ===== src/Concurrency/Override.antt =====
-- The configured override of the concurrency limit.
use mybro.Concurrency.{
  LastConcurrency, Caches, Fetched, fresh_in_cache, compute_effective_from_conc, compute_effective,
  recompute_effective, get_effective_concurrency, last_concurrency_of, store_usage, reading,
  fetch_usage, fetch_concurrency, Fetch, run, no_caches,
}
use mybro.Json.{Value}
use mybro.Prelude.{
  ℕ, ◌≡◌, ◌⊎◌, refl, Bool, false, Option, none, some, List, [], ◌∷◌, Option-cases, Bool-cases, inl,
  inr, if◌then◌else◌,
}

-- The two caches are filled together, and never from an override.
abbrev pub Plain : Caches → Type 0
Plain c =
    ((c.concurrency ≡ none) × (c.effective ≡ none))
    ⊎ ((conc : LastConcurrency) × (c.effective ≡ some (compute_effective_from_conc conc 0)))

module _ (from_slice : List ℕ → Option Value) where
  fetch_usage-Plain :
      (now : ℕ) (fresh : Bool) (fetch : Fetched × ℕ) (c : Caches)
      → Plain c
      → Plain (fetch_usage from_slice now fresh fetch c).1
  unfolding fetch_usage store_usage
  fetch_usage-Plain now fresh fetch c p =
      elim (Option-cases (if fresh then none else fresh_in_cache now c.usage)) [
        | inr (d, e) ↦ rw (fetch_usage, e) p
        | inl e ↦ elim (Option-cases (reading from_slice fetch.0)) [
          | inl f ↦ rw (fetch_usage, e, f) p
          | inr (u, f) ↦ rw (fetch_usage, e, f) p
        ]
      ]

  fetch_concurrency-Plain :
      (now : ℕ) (fresh : Bool) (fetch : Fetched × ℕ) (c : Caches)
      → Plain c
      → Plain (fetch_concurrency from_slice now fresh fetch c).1
  unfolding fetch_concurrency recompute_effective
  fetch_concurrency-Plain now fresh fetch c p =
      elim (Option-cases (if fresh then none else fresh_in_cache now c.concurrency)) [
        | inr (d, e) ↦ rw (fetch_concurrency, e) p
        | inl e ↦ elim (Option-cases (fetch_usage from_slice now fresh fetch c).0) [
          | inl f ↦ rw (fetch_concurrency, e, f) (fetch_usage-Plain now fresh fetch c p)
          | inr (u, f) ↦ rw (fetch_concurrency, e, f) (inr (last_concurrency_of u, refl))
        ]
      ]

  run-Plain : (fs : List (Fetch from_slice)) (c : Caches) → Plain c → Plain (run from_slice fs c)
  unfolding run
  run-Plain [] c p = p
  run-Plain (f ∷ fs) c p = elim (Bool-cases f.of_concurrency) [
    | inl e ↦
        rw (run, e)
          (run-Plain fs (fetch_concurrency from_slice f.now f.fresh f.fetch c).1
            (fetch_concurrency-Plain f.now f.fresh f.fetch c p))
    | inr e ↦
        rw (run, e)
          (run-Plain fs (fetch_usage from_slice f.now f.fresh f.fetch c).1
            (fetch_usage-Plain f.now f.fresh f.fetch c p))
  ]

  -- After any fetches from the start of the program, the concurrency in effect is the same for every
  -- configured override, and is not marked as overridden.
  pub run-override :
      (fs : List (Fetch from_slice)) (config_override : ℕ)
      → let c = run from_slice fs no_caches in
        (get_effective_concurrency config_override c ≡ get_effective_concurrency 0 c)
        × ((get_effective_concurrency config_override c).overridden ≡ false)
  unfolding get_effective_concurrency compute_effective compute_effective_from_conc
  run-override fs config_override =
      let c = run from_slice fs no_caches in
      elim (run-Plain fs no_caches (inl (refl, refl))) [
        | inl (e, f) ↦ rw (get_effective_concurrency, f, e) (refl, refl)
        | inr (conc, e) ↦ rw (get_effective_concurrency, e) (refl, refl)
      ]
