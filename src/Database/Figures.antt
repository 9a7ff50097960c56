-- ===== src/Database/Figures.antt =====
-- src/db.rs: `query_summary`, `query_token_stats` and `query_distinct_models`.
pub mod Agree
use mybro.Database.{
  Row, Cell, Averages, selected, failed, turned_away, was_cached, measurable, ttfts, or_zero, text,
  integer, sum_cell, max_cell, avg_cell, count_cell, get_opt_u64, get_u64, get_opt_f64, get_string,
  column, ◌>>=◌,
}
use mybro.Database.Buckets.{C, or_zero_float}
use mybro.Prelude.{
  ℕ, ◌-◌, String, str_eq, Bool, Option, none, some, List, [], ◌∷◌, map, length, filter, ltb,
  if◌then◌else◌,
}
use mybro.Stats.{Floats, StatsSummary, rate}
use mybro.Stats.Tokens.{all_texts, add_text}

abbrev pub gen_tokens : Row → ℕ
gen_tokens r = if measurable r then r.tokens_out else 0

abbrev pub gen_time : Row → ℕ
gen_time r = if measurable r then r.duration_ms - or_zero r.ttft_ms else 0

module _ (floats : Floats) (sqlite : Averages floats) where
  open floats use {F}

  abbrev pub sum_of : (Row → ℕ) → List Row → Option (C floats sqlite)
  sum_of f rs = sum_cell floats sqlite (map f rs)

  -- The columns of the summary, in their order.
  unfoldable pub summary_cells : List Row → Option (List (C floats sqlite))
  unfolding sum_cell max_cell avg_cell count_cell
  summary_cells rs = do
    errors ← count_cell floats sqlite failed rs
    throttled ← count_cell floats sqlite turned_away rs
    cached ← count_cell floats sqlite was_cached rs
    tokens_in ← sum_of (λ r. r.tokens_in) rs
    tokens_out ← sum_of (λ r. r.tokens_out) rs
    cached_tokens ← sum_of (λ r. r.cached_tokens) rs
    created ← sum_of (λ r. r.cache_creation_tokens) rs
    gen_tokens_out ← sum_of gen_tokens rs
    gen_time_ms ← sum_of gen_time rs
    some (
        integer (length rs)
        ∷ errors
        ∷ throttled
        ∷ cached
        ∷ tokens_in
        ∷ tokens_out
        ∷ avg_cell floats sqlite (map (λ r. r.duration_ms) rs)
        ∷ avg_cell floats sqlite (ttfts rs)
        ∷ cached_tokens
        ∷ created
        ∷ max_cell floats sqlite (map (λ r. r.tokens_in) rs)
        ∷ gen_tokens_out
        ∷ gen_time_ms
        ∷ [])

  abbrev pub u64_at : ℕ → List (C floats sqlite) → Option (Option ℕ)
  u64_at = column floats sqlite (get_opt_u64 floats sqlite)

  abbrev pub f64_at : ℕ → List (C floats sqlite) → Option (Option F)
  f64_at = column floats sqlite (get_opt_f64 floats sqlite)

  unfoldable pub read_summary : List (C floats sqlite) → Option (StatsSummary floats)
  unfolding get_opt_u64 get_opt_f64
  read_summary row = do
    tokens_in ← u64_at 4 row
    cached_tokens ← u64_at 8 row
    created ← u64_at 9 row
    count ← u64_at 0 row
    errors ← u64_at 1 row
    throttled ← u64_at 2 row
    cached ← u64_at 3 row
    tokens_out ← u64_at 5 row
    avg_latency ← f64_at 6 row
    avg_ttft ← f64_at 7 row
    max_context ← u64_at 10 row
    gen_tokens_out ← u64_at 11 row
    gen_time_ms ← u64_at 12 row
    some (record {
      count = or_zero count;
      errors = or_zero errors;
      throttled = or_zero throttled;
      cached = or_zero cached;
      cached_tokens = or_zero cached_tokens;
      cache_creation_tokens = or_zero created;
      cache_hit_rate = rate floats (or_zero cached_tokens) (or_zero tokens_in);
      tokens_in = or_zero tokens_in;
      tokens_out = or_zero tokens_out;
      avg_latency_ms = or_zero_float floats sqlite avg_latency;
      avg_ttft_ms = or_zero_float floats sqlite avg_ttft;
      max_context_tokens = or_zero max_context;
      gen_tokens_out = or_zero gen_tokens_out;
      gen_time_ms = or_zero gen_time_ms;
    })

  unfoldable pub query_summary : ℕ → ℕ → Option String → List Row → Option (StatsSummary floats)
  unfolding selected summary_cells read_summary
  query_summary now_ms window_ms model table =
      summary_cells (filter (selected (now_ms - window_ms) model) table) >>= read_summary

  -- `TokenSummary`, with the average that the database has.
  pub record StoredTokens : Type 0 where
    pub key_name : String
    pub count : ℕ
    pub errors : ℕ
    pub tokens_in : ℕ
    pub tokens_out : ℕ
    pub avg_latency_ms : F

  abbrev pub of_key : String → List Row → List Row
  of_key k rs = filter (λ r. str_eq r.key_name k) rs

  unfoldable pub token_cells : String → List Row → Option (List (C floats sqlite))
  unfolding sum_cell avg_cell count_cell
  token_cells k rs = do
    errors ← count_cell floats sqlite failed rs
    tokens_in ← sum_of (λ r. r.tokens_in) rs
    tokens_out ← sum_of (λ r. r.tokens_out) rs
    some (
        text k
        ∷ integer (length rs)
        ∷ errors
        ∷ tokens_in
        ∷ tokens_out
        ∷ avg_cell floats sqlite (map (λ r. r.duration_ms) rs)
        ∷ [])

  abbrev pub must_u64_at : ℕ → List (C floats sqlite) → Option ℕ
  must_u64_at = column floats sqlite (get_u64 floats sqlite)

  unfoldable pub read_tokens : List (C floats sqlite) → Option StoredTokens
  unfolding get_u64 get_opt_f64 get_string
  read_tokens row = do
    key_name ← column floats sqlite (get_string floats sqlite) 0 row
    count ← must_u64_at 1 row
    errors ← must_u64_at 2 row
    tokens_in ← must_u64_at 3 row
    tokens_out ← must_u64_at 4 row
    avg_latency ← f64_at 5 row
    some (record {
      key_name = key_name;
      count = count;
      errors = errors;
      tokens_in = tokens_in;
      tokens_out = tokens_out;
      avg_latency_ms = or_zero_float floats sqlite avg_latency;
    })

  unfoldable pub tokens_of : List Row → List String → Option (List StoredTokens)
  unfolding token_cells read_tokens
  tokens_of rs [] = some []
  tokens_of rs (k ∷ ks) = elim (token_cells k (of_key k rs) >>= read_tokens) [
    | none ↦ none
    | some t ↦ elim (tokens_of rs ks) [ none ↦ none | some ts ↦ some (t ∷ ts) ]
  ]

  -- `ORDER BY count DESC`; among equal counts the statement leaves the order open, here it is the keys'.
  unfoldable pub by_count : StoredTokens → List StoredTokens → List StoredTokens
  by_count t [] = t ∷ []
  by_count t (u ∷ us) =
      let rest = by_count t us in if ltb t.count u.count then u ∷ rest else t ∷ u ∷ us

  unfoldable pub order_by_count : List StoredTokens → List StoredTokens
  unfolding by_count
  order_by_count [] = []
  order_by_count (t ∷ ts) = by_count t (order_by_count ts)

  unfoldable pub query_token_stats : ℕ → ℕ → Option String → List Row → Option (List StoredTokens)
  unfolding selected tokens_of order_by_count all_texts
  query_token_stats now_ms window_ms model table =
      let rs = filter (selected (now_ms - window_ms) model) table in
      elim (tokens_of rs (all_texts (map (λ r. r.key_name) rs))) [
        | none ↦ none
        | some ts ↦ some (order_by_count ts)
      ]

-- `SELECT DISTINCT model … ORDER BY model ASC`, in the order of the bytes.
unfoldable pub query_distinct_models : ℕ → ℕ → List Row → List String
unfolding selected all_texts
query_distinct_models now_ms window_ms table =
    all_texts (map (λ r. r.model) (filter (selected (now_ms - window_ms) none) table))
