-- ===== src/Endpoints/Stats.antt =====
-- src/routes/stats_api.rs: the statistics, from memory and from the database.
-- A product with 1000 wraps at 2^64, as in a release build.
use mybro.Access.{Headers, check_auth}
use mybro.Catalog.{find}
use mybro.Config.{Config}
use mybro.Config.Duration.{parse_below}
use mybro.Database.{Row, Averages}
use mybro.Database.Buckets.{query_buckets}
use mybro.Database.Figures.{StoredTokens, query_summary, query_token_stats, query_distinct_models}
use mybro.Endpoints.Usage.{Params}
use mybro.Prelude.{
  ℕ, ◌*◌, ◌%◌, ◌^◌, ◌⊎◌, inl, inr, String, str_eq, is_empty, Bool, Option, none, some, List, ltb,
  if◌then◌else◌,
}
use mybro.Stats.{
  RequestRecord, StatsCollector, Floats, StatsSummary, recent, summary, memory_window_ms,
}
use mybro.Stats.Percentiles.{StatsBucket, buckets}
use mybro.Stats.Tokens.{TokenSummary, token_stats, distinct_models}

-- `params.get(k).and_then(|v| v.parse().ok()).unwrap_or(default)`.
unfoldable pub number_param : String → ℕ → Params → ℕ
unfolding parse_below
number_param k default params = elim (find k params) [
  | none ↦ default
  | some v ↦ elim (parse_below (2 ^ 64) v) [ none ↦ default | some n ↦ n ]
]

-- The model asked for; an empty one asks for all.
abbrev pub model_param : Params → Option String
model_param params = elim (find "model" params) [
  | none ↦ none
  | some m ↦ if is_empty m then none else some m
]

abbrev pub mode_param : Params → String
mode_param params = elim (find "mode" params) [ none ↦ "buckets" | some m ↦ m ]

abbrev pub in_ms : ℕ → ℕ
in_ms seconds = (seconds * 1000) % 2 ^ 64

-- `capacity` is how many buckets a Vec can be made for.
module _ (floats : Floats) (sqlite : Averages floats) (capacity : ℕ) where
  -- What is printed; `panicked` is a panic of `buckets`.
  pub data StatsReply : Type 0 where
    unauthorized panicked : StatsReply
    summary_reply : StatsSummary floats → StatsReply
    recent_reply : List RequestRecord → StatsReply
    models_reply : List String → StatsReply
    buckets_reply : List (StatsBucket floats) → StatsSummary floats → ℕ → ℕ → StatsReply
    tokens_reply : ℕ → List (StoredTokens floats sqlite) ⊎ List TokenSummary → StatsReply

  -- The collector with its database, `none` for one that has none.
  pub record Collected : Type 0 where
    pub memory : StatsCollector
    pub table : Option (List Row)

  -- The queries, as the collector makes them.
  unfoldable pub summary_of : ℕ → ℕ → Option String → Collected → StatsSummary floats
  unfolding summary query_summary
  summary_of now_ms window_ms model c =
      let db : Option (StatsSummary floats) = elim (c.table) [
        | none ↦ none
        | some rows ↦ query_summary floats sqlite now_ms window_ms model rows
      ] in
      summary floats db now_ms window_ms model c.memory

  unfoldable pub buckets_of :
      ℕ → ℕ → ℕ → Option String → Collected → Option (List (StatsBucket floats))
  unfolding buckets query_buckets
  buckets_of now_ms window_ms bucket_ms model c =
      let db : Option (List (StatsBucket floats)) = elim (c.table) [
        | none ↦ none
        | some rows ↦ query_buckets floats sqlite now_ms window_ms bucket_ms model rows
      ] in
      buckets floats db capacity now_ms window_ms bucket_ms model c.memory

  unfoldable pub models_of : ℕ → ℕ → Collected → List String
  unfolding distinct_models query_distinct_models
  models_of now_ms window_ms c =
      let db : Option (List String) = elim (c.table) [
        | none ↦ none
        | some rows ↦
            if ltb memory_window_ms window_ms
            then some (query_distinct_models now_ms window_ms rows)
            else none
      ] in
      distinct_models db now_ms window_ms c.memory.records

  unfoldable pub tokens_for :
      ℕ → ℕ → Option String → Collected → List (StoredTokens floats sqlite) ⊎ List TokenSummary
  unfolding token_stats query_token_stats
  tokens_for now_ms window_ms model c =
      let memory = token_stats none now_ms window_ms model c.memory.records in
      elim (c.table) [
        | none ↦ inr memory
        | some rows ↦ elim (query_token_stats floats sqlite now_ms window_ms model rows) [
          | none ↦ inr memory
          | some ts ↦ inl ts
        ]
      ]

  module _ (ct_eq : String → String → Bool) where
    unfoldable pub get_stats : ℕ → Config → Collected → Headers → Params → StatsReply
    unfolding number_param summary_of buckets_of models_of recent
    get_stats now_ms cfg c h params =
        let window = number_param "window" 300 params in
        let bucket = number_param "bucket" 10 params in
        let model = model_param params in
        let mode = mode_param params in
        let window_ms = in_ms window in
        let answered =
          if str_eq mode "summary"
          then summary_reply (summary_of now_ms window_ms model c)
          else if str_eq mode "recent"
          then recent_reply (recent (number_param "limit" 100 params) model c.memory)
          else if str_eq mode "models"
          then models_reply (models_of now_ms window_ms c)
          else elim (buckets_of now_ms window_ms (in_ms bucket) model c) [
            | none ↦ panicked
            | some bs ↦ buckets_reply bs (summary_of now_ms window_ms model c) window bucket
          ] in
        if check_auth ct_eq cfg h then answered else unauthorized

    unfoldable pub get_token_stats : ℕ → Config → Collected → Headers → Params → StatsReply
    unfolding number_param tokens_for
    get_token_stats now_ms cfg c h params =
        let window = number_param "window" 300 params in
        if check_auth ct_eq cfg h
        then tokens_reply window (tokens_for now_ms (in_ms window) (model_param params) c)
        else unauthorized
