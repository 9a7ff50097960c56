-- ===== src/Stats/Panics.antt =====
-- Which buckets can be computed.
use mybro.Prelude.{
  ℕ, ◌-◌, ◌/◌, ◌<◌, ◌≤◌, min, max, ◌≡◌, sym, ◌∙◌, ◌⊎◌, ◌↔◌, refl, inl, inr, String, true, false,
  Option, none, some, List, [], ◌∷◌, length, get_elem?-lt, ltb, ◌==◌, Bool-cases, arith,
}
use mybro.Stats.{StatsCollector, Floats, memory_window_ms}
use mybro.Stats.Series.{Bucket, add_records, empty_buckets, fill_buckets}
use mybro.Stats.Percentiles.{
  sorted, percentile, StatsBucket, with_ttfts, finish_bucket, finish_buckets, memory_buckets,
  buckets,
}

module _ (floats : Floats) where
  percentile-some : (ns : List ℕ) (p : ℕ) → (x : floats.F) × (percentile floats ns p ≡ some x)
  unfolding percentile
  percentile-some [] p = (floats.zero_float, refl)
  percentile-some (n ∷ ns) p =
      let len = length (n ∷ ns) in
      let i = min (floats.rank p len) (len - 1) in
      let (m, e) = get_elem?-lt (n ∷ ns) i (omega arith) in
      (floats.as_f64 m, rw (percentile, e) refl)

  with_ttfts-some :
      (ts : List ℕ) (s : StatsBucket floats)
      → (out : StatsBucket floats) × (with_ttfts floats ts s ≡ some out)
  unfolding with_ttfts
  with_ttfts-some [] s = (s, refl)
  with_ttfts-some (t ∷ ts) s =
      let (p50, e) = percentile-some (sorted (t ∷ ts)) 50 in
      let (p95, f) = percentile-some (sorted (t ∷ ts)) 95 in rw (with_ttfts, e, f) (_, refl)

  finish_bucket-some :
      (b : Bucket) → (out : StatsBucket floats) × (finish_bucket floats b ≡ some out)
  unfolding finish_bucket
  finish_bucket-some b =
      let (p50, e) = percentile-some (sorted b.latencies) 50 in
      let (p95, f) = percentile-some (sorted b.latencies) 95 in
      elim (Bool-cases (b.count == 0)) [
        | inl g ↦ rw (finish_bucket, g) (_, refl)
        | inr g ↦ rw (finish_bucket, g, e, f) (with_ttfts-some b.ttfts _)
      ]

  finish_buckets-some :
      (bs : List Bucket) → (out : List (StatsBucket floats)) × (finish_buckets floats bs ≡ some out)
  unfolding finish_buckets
  finish_buckets-some [] = ([], refl)
  finish_buckets-some (b ∷ bs) =
      let (s, e) = finish_bucket-some b in
      let (ss, f) = finish_buckets-some bs in (s ∷ ss, rw (finish_buckets, e, f) refl)

  memory_buckets-some :
      (capacity now_ms window_ms bucket_ms : ℕ) (model : Option String) (c : StatsCollector)
      → (bucket_ms == 0) ≡ false
      → ltb capacity (max (window_ms / bucket_ms) 1) ≡ false
      → (out : List (StatsBucket floats)) × (memory_buckets floats capacity now_ms window_ms
            bucket_ms model c
          ≡ some out)
  unfolding memory_buckets fill_buckets
  memory_buckets-some capacity now_ms window_ms bucket_ms model c pos room =
      let start = now_ms - window_ms in
      rw (memory_buckets, pos, room)
        (finish_buckets-some (
          add_records start now_ms bucket_ms model c.records
            (empty_buckets start bucket_ms (max (window_ms / bucket_ms) 1) 0)))

  memory_buckets-zero :
      (capacity now_ms window_ms bucket_ms : ℕ) (model : Option String) (c : StatsCollector)
      → (bucket_ms == 0) ≡ true
      → memory_buckets floats capacity now_ms window_ms bucket_ms model c ≡ none
  unfolding memory_buckets fill_buckets
  memory_buckets-zero capacity now_ms window_ms bucket_ms model c z = rw (memory_buckets, z) refl

  memory_buckets-full :
      (capacity now_ms window_ms bucket_ms : ℕ) (model : Option String) (c : StatsCollector)
      → (bucket_ms == 0) ≡ false
      → ltb capacity (max (window_ms / bucket_ms) 1) ≡ true
      → memory_buckets floats capacity now_ms window_ms bucket_ms model c ≡ none
  unfolding memory_buckets fill_buckets
  memory_buckets-full capacity now_ms window_ms bucket_ms model c pos full =
      rw (memory_buckets, pos, full) refl

  -- No length for a bucket, or more buckets than a Vec can hold.
  abbrev pub IsBad : ℕ → ℕ → ℕ → Type 0
  IsBad capacity window_ms bucket_ms = (bucket_ms ≡ 0) ⊎ (capacity < max (window_ms / bucket_ms) 1)

  memory_buckets-panics :
      (capacity now_ms window_ms bucket_ms : ℕ) (model : Option String) (c : StatsCollector)
      → (memory_buckets floats capacity now_ms window_ms bucket_ms model c ≡ none)
        ↔ IsBad capacity window_ms bucket_ms
  memory_buckets-panics capacity now_ms window_ms bucket_ms model c =
      elim (Bool-cases (bucket_ms == 0)) [
        | inl z ↦ (
          λ h. inl (ground arith),
          λ h. memory_buckets-zero capacity now_ms window_ms bucket_ms model c z,
        )
        | inr pos ↦ elim (Bool-cases (ltb capacity (max (window_ms / bucket_ms) 1))) [
          | inl full ↦ (
            λ h. inr (ground arith),
            λ h. memory_buckets-full capacity now_ms window_ms bucket_ms model c pos full,
          )
          | inr room ↦
              let (out, e) =
                memory_buckets-some capacity now_ms window_ms bucket_ms model c pos room in
              (
                λ h. absurd (let q : none ≡ some out = sym h ∙ e in ground arith),
                λ h. absurd (elim h [ inl z ↦ ground arith | inr full ↦ ground arith ]),
              )
        ]
      ]

  -- As long as there is memory: the request for buckets panics exactly where memory is asked (for a window
  -- of at most five minutes, or where the database does not answer) and the length of a bucket is 0 or there
  -- are more buckets than a Vec can be made for. No percentile is ever read out of range.
  pub buckets-panics :
      (db : Option (List (StatsBucket floats))) (capacity now_ms window_ms bucket_ms : ℕ)
      (model : Option String) (c : StatsCollector)
      → (buckets floats db capacity now_ms window_ms bucket_ms model c ≡ none)
        ↔ (IsBad capacity window_ms bucket_ms × ((window_ms ≤ memory_window_ms) ⊎ (db ≡ none)))
  unfolding buckets
  buckets-panics none capacity now_ms window_ms bucket_ms model c =
      let memory = memory_buckets floats capacity now_ms window_ms bucket_ms model c in
      let (bad, panics) = memory_buckets-panics capacity now_ms window_ms bucket_ms model c in
      let asked : buckets floats none capacity now_ms window_ms bucket_ms model c ≡ memory =
        elim (Bool-cases (ltb memory_window_ms window_ms)) [
          | inl e ↦ rw (buckets, e) refl
          | inr e ↦ rw (buckets, e) refl
        ] in
      (λ h. (bad (sym asked ∙ h), inr refl), λ h. asked ∙ panics h.0)
  buckets-panics (some bs) capacity now_ms window_ms bucket_ms model c =
      elim (Bool-cases (ltb memory_window_ms window_ms)) [
        | inl e ↦ (
          λ h. absurd (let q : some bs ≡ none = rw (buckets, e) at h in ground arith),
          λ h. absurd (elim (h.1) [ inl le ↦ ground arith | inr q ↦ ground arith ]),
        )
        | inr e ↦
            let memory = memory_buckets floats capacity now_ms window_ms bucket_ms model c in
            let (bad, panics) = memory_buckets-panics capacity now_ms window_ms bucket_ms model c in
            let asked : buckets floats (some bs) capacity now_ms window_ms bucket_ms model c
                ≡ memory =
              rw (buckets, e) refl in
            (λ h. (bad (sym asked ∙ h), inl (ground arith)), λ h. asked ∙ panics h.0)
      ]
