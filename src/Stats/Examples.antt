-- ===== src/Stats/Examples.antt =====
-- The collector at concrete inputs: tests, and its theorems applied.
use mybro.Prelude.{
  arith, ℕ, ◌-◌, ◌*◌, ◌/◌, ◌≡◌, refl, true, none, some, [], ◌∷◌, map, get_elem?, arith, List,
}
use mybro.Stats.{
  RequestRecord, StatsCollector, Floats, with_capacity, push_record, summarize, generation,
  add_generation, recent, model_matches, relevant,
}
use mybro.Stats.Series.{
  fill_buckets, add_records, add_record, empty_buckets, add_to_bucket, add_model, empty_bucket,
  Bucket,
}
use mathlib.Core.Option
use mybro.Stats.Ring.{push_all, push_all-with_capacity}
use mybro.Stats.Tokens.{
  token_stats, add_all, add_to_key, add_text, all_texts, distinct_models, entry_total,
  token_stats-totals,
}
use mybro.Stats.Buckets.{add_each, fill_buckets-get}

program : Unit {0}
unfolding token_stats add_all add_to_key add_text all_texts distinct_models push_all push_record
    with_capacity summarize generation add_generation fill_buckets add_records add_record
    empty_buckets add_to_bucket add_model add_each recent model_matches
program = tt

abbrev answered : RequestRecord
answered = record {
  ts_ms = 1500;
  duration_ms = 900;
  ttft_ms = some 400;
  status = 200;
  model = "coder";
  pipeline = "openai";
  key_name = "Primary";
  tokens_in = 100;
  tokens_out = 20;
  cached_tokens = 60;
  cache_creation_tokens = 0;
  cached = true;
  error = none;
}

abbrev refused : RequestRecord
refused = record answered { ts_ms = 2500; status = 429; ttft_ms = none; tokens_out = 0 }

abbrev late : RequestRecord
late = record answered { ts_ms = 4000 }

abbrev three : List RequestRecord
three = answered ∷ refused ∷ late ∷ []

-- Floats do not matter to the counts: one that keeps the quotients.
abbrev quotients : Floats
quotients = record {
  F = ℕ;
  zero_float = 0;
  ratio = λ n d. n / d;
  rank = λ p len. p * (len - 1) / 100;
  as_f64 = λ n. n;
}

push_all-with_capacity_example : (push_all three (with_capacity 2)).records ≡ refused ∷ late ∷ []
push_all-with_capacity_example = push_all-with_capacity 2 three (omega arith)

abbrev collector : StatsCollector
collector = record { records = three; max_records = 10 }

-- The window from 1000 to 4000 has the buckets that start at 1000, 2000 and 3000.
fill_buckets-get_example :
    (bs : List Bucket) × (fill_buckets 4000 3000 1000 none collector ≡ some bs)
    × (get_elem? bs 1 ≡ some (add_to_bucket refused (empty_bucket 2000)))
unfolding add_each add_to_bucket model_matches
fill_buckets-get_example =
    fill_buckets-get 4000 3000 1000 none collector (omega arith) 1 (omega arith)

-- A record stamped with the time of the query is in no bucket.
newest_missing :
    Option.map (map (λ b. b.count)) (fill_buckets 4000 3000 1000 none collector)
    ≡ some (1 ∷ 1 ∷ 0 ∷ [])
unfolding fill_buckets add_records add_record empty_buckets add_to_bucket add_model model_matches
newest_missing = refl

token_stats-totals_example :
    let es = token_stats none 2_000 1_000 none (answered ∷ answered ∷ []) in
    (entry_total (λ e. e.count) "Primary" es ≡ 2)
    × (entry_total (λ e. e.errors) "Primary" es ≡ 0)
    × (entry_total (λ e. e.tokens_in) "Primary" es ≡ 200)
    × (entry_total (λ e. e.tokens_out) "Primary" es ≡ 40)
unfolding relevant model_matches
token_stats-totals_example =
    token_stats-totals "Primary" 2_000 1_000 none (answered ∷ answered ∷ []) (omega arith)
      (omega arith) (omega arith) (omega arith)
