-- ===== src/Stats/Summary.antt =====
-- How the figures of a summary relate to each other and to the records.
use mybro.Prelude.{
  ℕ, ◌+◌, ◌≤◌, ◌≡◌, refl, Bool, true, List, [], ◌∷◌, map, length, filter, length-filter-le,
  Bool-cases, inl, inr, arith,
}
use mybro.Stats.{
  RequestRecord, Floats, is_error, is_throttled, sum, add_generation, generation, summarize,
}

-- Every throttled response is an error.
throttled-is_error : (r : RequestRecord) → is_throttled r ≡ true → is_error r ≡ true
throttled-is_error r h = ground arith

length-filter_mono :
    (p q : RequestRecord → Bool)
    → ((r : RequestRecord) → p r ≡ true → q r ≡ true)
    → (rs : List RequestRecord) → length (filter p rs) ≤ length (filter q rs)
length-filter_mono p q imp [] = omega arith
length-filter_mono p q imp (r ∷ rs) = elim (Bool-cases (p r)) [
  | inl e ↦
      let ih = length-filter_mono p q imp rs in
      let f : q r ≡ true = imp r e in rw (filter, e, f) (omega (arith, ih))
  | inr e ↦
      let ih = length-filter_mono p q imp rs in
      elim (Bool-cases (q r)) [
        | inl f ↦ rw (filter, e, f) (omega (arith, ih))
        | inr f ↦ rw (filter, e, f) ih
      ]
]

add_generation-le :
    (acc : ℕ × ℕ) (r : RequestRecord)
    → ((add_generation acc r).0 ≤ acc.0 + r.tokens_out)
      × ((add_generation acc r).1 ≤ acc.1 + r.duration_ms)
unfolding add_generation
add_generation-le (tok, time) r = ground arith

generation-le :
    (rs : List RequestRecord) (acc : ℕ × ℕ)
    → ((generation acc rs).0 ≤ acc.0 + sum (map (λ r. r.tokens_out) rs))
      × ((generation acc rs).1 ≤ acc.1 + sum (map (λ r. r.duration_ms) rs))
unfolding generation
generation-le [] acc = (omega arith, omega arith)
generation-le (r ∷ rs) acc =
    let (a, b) = add_generation-le acc r in
    let (c, d) = generation-le rs (add_generation acc r) in
    (omega (arith, a, c), omega (arith, b, d))

module _ (floats : Floats) where
  -- Whatever the records: errors are among the requests, throttled and cached ones too, and the
  -- throttled are among the errors; and the tokens and the time that the throughput is taken from
  -- are, before wraps, within the tokens sent and the time spent.
  pub summarize-within :
      (rs : List RequestRecord)
      → let s = summarize floats rs in
        (s.count ≡ length rs)
        × (s.errors ≤ s.count)
        × (s.throttled ≤ s.errors)
        × (s.cached ≤ s.count)
        × ((generation (0, 0) rs).0 ≤ sum (map (λ r. r.tokens_out) rs))
        × ((generation (0, 0) rs).1 ≤ sum (map (λ r. r.duration_ms) rs))
  unfolding summarize
  summarize-within rs =
      let (tok, time) = generation-le rs (0, 0) in
      (
        refl,
        length-filter-le is_error rs,
        length-filter_mono is_throttled is_error throttled-is_error rs,
        length-filter-le (λ r. r.cached) rs,
        omega (arith, tok),
        omega (arith, time),
      )
