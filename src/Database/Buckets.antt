-- ===== src/Database/Buckets.antt =====
-- src/db.rs, `query_buckets`: the statement, and how its rows are read.
pub mod Failing
use mybro.Database.{
  Row, Cell, Averages, selected, failed, turned_away, was_cached, ttfts, null, integer, sum_cell,
  max_cell, avg_cell, count_cell, get_opt_u64, get_u64, get_opt_f64, column, or_zero, ◌>>=◌,
}
use mybro.Prelude.{
  ℕ, zero, suc, ◌-◌, ◌*◌, ◌/◌, String, Bool, Option, none, some, List, [], ◌∷◌, map, length, filter,
  ltb, ◌==◌, if◌then◌else◌,
}
use mybro.Stats.{Floats}
use mybro.Stats.Percentiles.{StatsBucket}

-- `(ts_ms / ?) * ?`; a division by zero is NULL.
abbrev pub slot : ℕ → Row → ℕ
slot bucket_ms r = (r.ts_ms / bucket_ms) * bucket_ms

-- The values that `GROUP BY ts ORDER BY ts ASC` goes through: each once, ascending.
unfoldable pub add_slot : ℕ → List ℕ → List ℕ
add_slot t [] = t ∷ []
add_slot t (u ∷ us) =
    let rest = add_slot t us in if t == u then u ∷ us else if ltb t u then t ∷ u ∷ us else u ∷ rest

unfoldable pub slots : ℕ → List Row → List ℕ
slots bucket_ms [] = []
slots bucket_ms (r ∷ rs) = add_slot (slot bucket_ms r) (slots bucket_ms rs)

abbrev pub in_slot : ℕ → ℕ → List Row → List Row
in_slot bucket_ms t rs = filter (λ r. slot bucket_ms r == t) rs

module _ (floats : Floats) (sqlite : Averages floats) where
  open floats use {F, zero_float, ratio}

  abbrev pub C : Type 0
  C = Cell floats sqlite

  -- The columns of the statement, in its order.
  unfoldable pub bucket_cells : C → List Row → Option (List C)
  unfolding sum_cell max_cell avg_cell count_cell
  bucket_cells ts rs = do
    errors ← count_cell floats sqlite failed rs
    throttled ← count_cell floats sqlite turned_away rs
    tokens_in ← sum_cell floats sqlite (map (λ r. r.tokens_in) rs)
    tokens_out ← sum_cell floats sqlite (map (λ r. r.tokens_out) rs)
    cached ← count_cell floats sqlite was_cached rs
    cached_tokens ← sum_cell floats sqlite (map (λ r. r.cached_tokens) rs)
    created ← sum_cell floats sqlite (map (λ r. r.cache_creation_tokens) rs)
    some (
        ts
        ∷ integer (length rs)
        ∷ errors
        ∷ throttled
        ∷ avg_cell floats sqlite (map (λ r. r.duration_ms) rs)
        ∷ max_cell floats sqlite (map (λ r. r.duration_ms) rs)
        ∷ tokens_in
        ∷ tokens_out
        ∷ cached
        ∷ cached_tokens
        ∷ created
        ∷ avg_cell floats sqlite (ttfts rs)
        ∷ [])

  unfoldable pub grouped : ℕ → List Row → List ℕ → List (Option (List C))
  unfolding bucket_cells
  grouped bucket_ms rs [] = []
  grouped bucket_ms rs (t ∷ ts) =
      bucket_cells (integer t) (in_slot bucket_ms t rs) ∷ grouped bucket_ms rs ts

  -- The result rows; with buckets of length 0 all of the rows are in one group whose time is NULL.
  unfoldable pub bucket_rows : ℕ → List Row → List (Option (List C))
  unfolding grouped bucket_cells slots add_slot
  bucket_rows zero [] = []
  bucket_rows zero (r ∷ rs) = bucket_cells null (r ∷ rs) ∷ []
  bucket_rows (suc n) rs = grouped (suc n) rs (slots (suc n) rs)

  abbrev pub or_zero_float : Option F → F
  or_zero_float none = zero_float
  or_zero_float (some x) = x

  -- One round of the loop: the columns by number, as the source names them.
  unfoldable pub read_bucket : List C → Option (StatsBucket floats)
  unfolding get_opt_u64 get_u64 get_opt_f64
  read_bucket row = do
    tokens_in ← column floats sqlite (get_opt_u64 floats sqlite) 6 row
    cached_tokens ← column floats sqlite (get_opt_u64 floats sqlite) 10 row
    ts_ms ← column floats sqlite (get_u64 floats sqlite) 0 row
    count ← column floats sqlite (get_u64 floats sqlite) 1 row
    errors ← column floats sqlite (get_u64 floats sqlite) 2 row
    throttled ← column floats sqlite (get_u64 floats sqlite) 3 row
    avg_latency ← column floats sqlite (get_opt_f64 floats sqlite) 4 row
    max_latency ← column floats sqlite (get_opt_u64 floats sqlite) 5 row
    avg_ttft ← column floats sqlite (get_opt_f64 floats sqlite) 9 row
    tokens_out ← column floats sqlite (get_opt_u64 floats sqlite) 7 row
    cached ← column floats sqlite (get_opt_u64 floats sqlite) 8 row
    created ← column floats sqlite (get_opt_u64 floats sqlite) 11 row
    some (record {
      ts_ms = ts_ms;
      count = count;
      errors = errors;
      throttled = throttled;
      avg_latency_ms = or_zero_float avg_latency;
      p50_latency_ms = zero_float;
      p95_latency_ms = zero_float;
      max_latency_ms = or_zero max_latency;
      avg_ttft_ms = or_zero_float avg_ttft;
      p50_ttft_ms = zero_float;
      p95_ttft_ms = zero_float;
      tokens_in = or_zero tokens_in;
      tokens_out = or_zero tokens_out;
      cached = or_zero cached;
      cached_tokens = or_zero cached_tokens;
      cache_creation_tokens = or_zero created;
      cache_hit_rate =
          if ltb 0 (or_zero tokens_in)
          then ratio (or_zero cached_tokens) (or_zero tokens_in)
          else zero_float;
      by_model = [];
    })

  -- `while let Some(row) = rows.next()?`.
  unfoldable pub read_buckets : List (Option (List C)) → Option (List (StatsBucket floats))
  unfolding read_bucket
  read_buckets [] = some []
  read_buckets (none ∷ rows) = none
  read_buckets (some row ∷ rows) = elim (read_bucket row) [
    | none ↦ none
    | some b ↦ elim (read_buckets rows) [ none ↦ none | some bs ↦ some (b ∷ bs) ]
  ]

  unfoldable pub query_buckets :
      ℕ → ℕ → ℕ → Option String → List Row → Option (List (StatsBucket floats))
  unfolding selected bucket_rows read_buckets
  query_buckets now_ms window_ms bucket_ms model table =
      read_buckets (bucket_rows bucket_ms (filter (selected (now_ms - window_ms) model) table))
