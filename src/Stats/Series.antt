-- ===== src/Stats/Series.antt =====
-- The time buckets of src/stats.rs, before averages and percentiles are taken.
use mybro.Prelude.{
  ℕ, zero, suc, ◌+◌, ◌-◌, ◌*◌, ◌/◌, max, String, str_eq, Bool, true, false, not, ◌||◌, Option, none,
  some, List, [], ◌∷◌, ◌++◌, get_elem?, set, ltb, ◌==◌, if◌then◌else◌,
}
use mybro.Stats.{add64, RequestRecord, StatsCollector, model_matches, is_error, is_throttled}

pub record ModelBucket : Type 0 where
  pub count : ℕ
  pub latency_sum_ms : ℕ
  pub tokens_in : ℕ
  pub tokens_out : ℕ

-- A bucket while records are added to it, with the latencies and the times to the first byte that
-- the source keeps beside it. `by_model` is listed in the order of first use, not by name.
pub record Bucket : Type 0 where
  pub ts_ms : ℕ
  pub count : ℕ
  pub errors : ℕ
  pub throttled : ℕ
  pub max_latency_ms : ℕ
  pub tokens_in : ℕ
  pub tokens_out : ℕ
  pub cached : ℕ
  pub cached_tokens : ℕ
  pub cache_creation_tokens : ℕ
  pub by_model : List (String × ModelBucket)
  pub latencies : List ℕ
  pub ttfts : List ℕ

abbrev pub empty_bucket : ℕ → Bucket
empty_bucket ts = record {
  ts_ms = ts;
  count = 0;
  errors = 0;
  throttled = 0;
  max_latency_ms = 0;
  tokens_in = 0;
  tokens_out = 0;
  cached = 0;
  cached_tokens = 0;
  cache_creation_tokens = 0;
  by_model = [];
  latencies = [];
  ttfts = [];
}

abbrev pub add_to_model : RequestRecord → ModelBucket → ModelBucket
add_to_model rec m = record {
  count = m.count + 1;
  latency_sum_ms = add64 m.latency_sum_ms rec.duration_ms;
  tokens_in = add64 m.tokens_in rec.tokens_in;
  tokens_out = add64 m.tokens_out rec.tokens_out;
}

-- `by_model.entry(model).or_default()`, and the additions to it.
unfoldable pub add_model : RequestRecord → List (String × ModelBucket) → List (String × ModelBucket)
add_model rec [] =
    (
      rec.model,
      add_to_model rec (record { count = 0; latency_sum_ms = 0; tokens_in = 0; tokens_out = 0 }),
    )
    ∷ []
add_model rec ((name, m) ∷ ms) =
    if str_eq name rec.model then (name, add_to_model rec m) ∷ ms else (name, m) ∷ add_model rec ms

abbrev pub one_if : Bool → ℕ
one_if true = 1
one_if false = 0

abbrev pub opt_list {ℓ} : {A : Type ℓ} → Option A → List A
opt_list none = []
opt_list (some a) = a ∷ []

unfoldable pub add_to_bucket : RequestRecord → Bucket → Bucket
add_to_bucket rec b = record {
  ts_ms = b.ts_ms;
  count = b.count + 1;
  errors = b.errors + one_if (is_error rec);
  throttled = b.throttled + one_if (is_throttled rec);
  max_latency_ms = max b.max_latency_ms rec.duration_ms;
  tokens_in = add64 b.tokens_in rec.tokens_in;
  tokens_out = add64 b.tokens_out rec.tokens_out;
  cached =
      b.cached + one_if (rec.cached || ltb 0 rec.cached_tokens || ltb 0 rec.cache_creation_tokens);
  cached_tokens = add64 b.cached_tokens rec.cached_tokens;
  cache_creation_tokens = add64 b.cache_creation_tokens rec.cache_creation_tokens;
  by_model = add_model rec b.by_model;
  latencies = b.latencies ++ rec.duration_ms ∷ [];
  ttfts = b.ttfts ++ opt_list rec.ttft_ms;
}

-- `(0..num_buckets)`, with the number of buckets left.
unfoldable pub empty_buckets : ℕ → ℕ → ℕ → ℕ → List Bucket
empty_buckets start_ms bucket_ms zero i = []
empty_buckets start_ms bucket_ms (suc left) i =
    empty_bucket (start_ms + i * bucket_ms) ∷ empty_buckets start_ms bucket_ms left (i + 1)

-- One round of the pass over the records.
unfoldable pub add_record : ℕ → ℕ → ℕ → Option String → RequestRecord → List Bucket → List Bucket
unfolding add_to_bucket model_matches
add_record start_ms now_ms bucket_ms model rec bs =
    if ltb rec.ts_ms start_ms || ltb now_ms rec.ts_ms
    then bs
    else if not (model_matches model rec)
    then bs
    else elim (get_elem? bs ((rec.ts_ms - start_ms) / bucket_ms)) [
      | none ↦ bs
      | some b ↦ set bs ((rec.ts_ms - start_ms) / bucket_ms) (add_to_bucket rec b)
    ]

unfoldable pub add_records :
    ℕ → ℕ → ℕ → Option String → List RequestRecord → List Bucket → List Bucket
add_records start_ms now_ms bucket_ms model [] bs = bs
add_records start_ms now_ms bucket_ms model (rec ∷ recs) bs =
    add_records start_ms now_ms bucket_ms model recs
      (add_record start_ms now_ms bucket_ms model rec bs)

-- The buckets of the in-memory records before averages are taken; `none` is the panic of a division
-- by a bucket of length 0.
unfoldable pub fill_buckets : ℕ → ℕ → ℕ → Option String → StatsCollector → Option (List Bucket)
unfolding add_records add_record empty_buckets
fill_buckets now_ms window_ms bucket_ms model c =
    if bucket_ms == 0
    then none
    else some (
        add_records (now_ms - window_ms) now_ms bucket_ms model c.records
          (empty_buckets (now_ms - window_ms) bucket_ms (max (window_ms / bucket_ms) 1) 0))
