-- ===== src/Stats/Percentiles.antt =====
-- src/stats.rs, `buckets`: averages and percentiles, and the choice between memory and database.
use mybro.Prelude.{
  ℕ, ◌-◌, ◌/◌, min, max, String, Option, none, some, List, [], ◌∷◌, length, get_elem?, ltb, leb,
  ◌==◌, if◌then◌else◌,
}
use mybro.Stats.{StatsCollector, Floats, sum64, rate, memory_window_ms}
use mybro.Stats.Series.{ModelBucket, Bucket, fill_buckets}

-- `sort_unstable`: equal numbers are not told apart.
unfoldable pub insert_sorted : ℕ → List ℕ → List ℕ
insert_sorted n [] = n ∷ []
insert_sorted n (m ∷ ms) = let rest = insert_sorted n ms in if leb n m then n ∷ m ∷ ms else m ∷ rest

unfoldable pub sorted : List ℕ → List ℕ
unfolding insert_sorted
sorted [] = []
sorted (n ∷ ns) = insert_sorted n (sorted ns)

module _ (floats : Floats) where
  open floats use {F, zero_float, ratio, rank, as_f64}

  -- `none` would be the panic of an index out of range.
  unfoldable pub percentile : List ℕ → ℕ → Option F
  percentile [] p = some zero_float
  percentile (n ∷ ns) p =
      let len = length (n ∷ ns) in
      elim (get_elem? (n ∷ ns) (min (rank p len) (len - 1))) [
        | none ↦ none
        | some m ↦ some (as_f64 m)
      ]

  pub record StatsBucket : Type 0 where
    pub ts_ms : ℕ
    pub count : ℕ
    pub errors : ℕ
    pub throttled : ℕ
    pub avg_latency_ms : F
    pub p50_latency_ms : F
    pub p95_latency_ms : F
    pub max_latency_ms : ℕ
    pub avg_ttft_ms : F
    pub p50_ttft_ms : F
    pub p95_ttft_ms : F
    pub tokens_in : ℕ
    pub tokens_out : ℕ
    pub cached : ℕ
    pub cached_tokens : ℕ
    pub cache_creation_tokens : ℕ
    pub cache_hit_rate : F
    pub by_model : List (String × ModelBucket)

  -- A bucket with its averages and percentiles still at zero.
  abbrev pub counted : Bucket → StatsBucket
  counted b = record {
    ts_ms = b.ts_ms;
    count = b.count;
    errors = b.errors;
    throttled = b.throttled;
    avg_latency_ms = zero_float;
    p50_latency_ms = zero_float;
    p95_latency_ms = zero_float;
    max_latency_ms = b.max_latency_ms;
    avg_ttft_ms = zero_float;
    p50_ttft_ms = zero_float;
    p95_ttft_ms = zero_float;
    tokens_in = b.tokens_in;
    tokens_out = b.tokens_out;
    cached = b.cached;
    cached_tokens = b.cached_tokens;
    cache_creation_tokens = b.cache_creation_tokens;
    cache_hit_rate = zero_float;
    by_model = b.by_model;
  }

  -- The times to the first byte, where there are any.
  unfoldable pub with_ttfts : List ℕ → StatsBucket → Option StatsBucket
  unfolding percentile sorted
  with_ttfts [] s = some s
  with_ttfts (t ∷ ts) s = elim (percentile (sorted (t ∷ ts)) 50) [
    | none ↦ none
    | some p50 ↦ elim (percentile (sorted (t ∷ ts)) 95) [
      | none ↦ none
      | some p95 ↦ some (record s {
        avg_ttft_ms = ratio (sum64 (t ∷ ts)) (length (t ∷ ts));
        p50_ttft_ms = p50;
        p95_ttft_ms = p95;
      })
    ]
  ]

  -- One round of the last loop.
  unfoldable pub finish_bucket : Bucket → Option StatsBucket
  unfolding percentile sorted with_ttfts
  finish_bucket b =
      if b.count == 0 then some (counted b) else elim (percentile (sorted b.latencies) 50) [
        | none ↦ none
        | some p50 ↦ elim (percentile (sorted b.latencies) 95) [
          | none ↦ none
          | some p95 ↦ with_ttfts b.ttfts (record (counted b) {
            avg_latency_ms = ratio (sum64 b.latencies) (length b.latencies);
            p50_latency_ms = p50;
            p95_latency_ms = p95;
            cache_hit_rate = rate floats b.cached_tokens b.tokens_in;
          })
        ]
      ]

  unfoldable pub finish_buckets : List Bucket → Option (List StatsBucket)
  unfolding finish_bucket
  finish_buckets [] = some []
  finish_buckets (b ∷ bs) = elim (finish_bucket b) [
    | none ↦ none
    | some s ↦ elim (finish_buckets bs) [ none ↦ none | some ss ↦ some (s ∷ ss) ]
  ]

  -- The buckets of the in-memory records; `none` is a panic. `capacity` is how many buckets a Vec can be made
  -- for, which depends on the layout of a bucket; with more, `collect` and `vec!` panic.
  unfoldable pub memory_buckets :
      ℕ → ℕ → ℕ → ℕ → Option String → StatsCollector → Option (List StatsBucket)
  unfolding fill_buckets finish_buckets
  memory_buckets capacity now_ms window_ms bucket_ms model c =
      elim (fill_buckets now_ms window_ms bucket_ms model c) [
        | none ↦ none
        | some bs ↦
            let finished = finish_buckets bs in
            if ltb capacity (max (window_ms / bucket_ms) 1) then none else finished
      ]

  -- `db` is what the database answers: `none` where there is none, or where its query fails.
  unfoldable pub buckets :
      Option (List StatsBucket)
      → ℕ
      → ℕ
      → ℕ
      → ℕ
      → Option String
      → StatsCollector
      → Option (List StatsBucket)
  unfolding memory_buckets
  buckets db capacity now_ms window_ms bucket_ms model c =
      let memory = memory_buckets capacity now_ms window_ms bucket_ms model c in
      if ltb memory_window_ms window_ms
      then elim db [ some bs ↦ some bs | none ↦ memory ]
      else memory
