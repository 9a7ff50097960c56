-- ===== src/Database/Examples.antt =====
-- The database at concrete inputs: tests, and its theorems applied.
use mybro.Database.{Averages, to_row, selected}
use mybro.Database.Buckets.{query_buckets}
use mybro.Database.Buckets.Failing.{query_buckets-fails}
use mybro.Database.Figures.{query_summary}
use mybro.Database.Figures.Agree.{query_summary-summarize}
use mybro.Database.Migrations.{Sqlite, Db, Migration, run_migrations, applied_rows, is_legacy}
use mybro.Database.Migrations.Repeated.{AllApplied, run_migrations-repeated}
use mybro.Database.Writer.{
  Outcome, Event, send, receive, timeout, run, start, accepted, batch_size, channel_size,
}
use mybro.Database.Writer.Kept.{run-accepted}
use mybro.Prelude.{
  inr, max, ℕ, ◌-◌, ◌*◌, ◌/◌, ◌<◌, ◌≤◌, ◌≡◌, ◌↔◌, ◌⊎◌, refl, String, Bool, true, false, Option,
  none, some, List, [], ◌∷◌, ◌++◌, map, length, filter, leb, arith,
}
use mybro.Stats.{
  RequestRecord, StatsCollector, Floats, StatsSummary, summarize, relevant, model_matches,
  filter_map, memory_window_ms,
}
use mybro.Stats.Percentiles.{StatsBucket, buckets, memory_buckets}
use mybro.Stats.Panics.{buckets-panics}

abbrev quotients : Floats
quotients = record {
  F = ℕ;
  zero_float = 0;
  ratio = λ n d. n / d;
  rank = λ p len. p * (len - 1) / 100;
  as_f64 = λ n. n;
}

abbrev sqlite : Averages quotients
sqlite = record { avg = λ n d. n / d }

abbrev timed : RequestRecord
timed = record {
  ts_ms = 1500;
  duration_ms = 900;
  ttft_ms = some 400;
  status = 200;
  model = "coder";
  pipeline = "openai";
  key_name = "Primary";
  tokens_in = 100;
  tokens_out = 20;
  cached_tokens = 60;
  cache_creation_tokens = 7;
  cached = true;
  error = none;
}

abbrev untimed : RequestRecord
untimed = record timed { ttft_ms = none; status = 503; model = "writer" }

abbrev collector : StatsCollector
collector = record { records = untimed ∷ []; max_records = 10 }

-- Without a time to the first byte the query succeeds, with three of its figures in the wrong place: the
-- tokens that were written to the cache stand for those read from it, those read from it for the time to
-- the first byte, and none for those written.
misread :
    query_buckets quotients sqlite 2000 1000000 1000 none (to_row untimed ∷ [])
    ≡ some (
        record {
          ts_ms = 1000;
          count = 1;
          errors = 1;
          throttled = 1;
          avg_latency_ms = 900;
          p50_latency_ms = 0;
          p95_latency_ms = 0;
          max_latency_ms = 900;
          avg_ttft_ms = 60;
          p50_ttft_ms = 0;
          p95_ttft_ms = 0;
          tokens_in = 100;
          tokens_out = 20;
          cached = 1;
          cached_tokens = 7;
          cache_creation_tokens = 0;
          cache_hit_rate = 0;
          by_model = [];
        }
        ∷ [])
unfolding query_buckets to_row filter_map
misread = refl

query_buckets-fails_example :
    let table = to_row untimed ∷ to_row timed ∷ [] in
    let answer = query_buckets quotients sqlite 2000 1_000_000 1000 none table in
    (answer ≡ none)
    × (buckets quotients answer 1000 2000 1_000_000 1000 none collector
        ≡ memory_buckets quotients 1000 2000 1_000_000 1000 none collector)
unfolding to_row selected filter_map
query_buckets-fails_example =
    query_buckets-fails quotients sqlite 1000 2000 1_000_000 1000 none
      (to_row untimed ∷ to_row timed ∷ []) collector (omega arith) (omega arith)

query_summary-summarize_example :
    let m = summarize quotients (relevant 2000 1_000_000 none (timed ∷ untimed ∷ [])) in
    (s : StatsSummary quotients) × (query_summary quotients sqlite 2000 1_000_000 none
        (map to_row (timed ∷ untimed ∷ []))
      ≡ some s)
    × (s.count ≡ m.count)
    × (s.errors ≡ m.errors)
    × (s.throttled ≡ m.throttled)
    × (s.cached ≡ m.cached)
    × (s.cached_tokens ≡ m.cached_tokens)
    × (s.cache_creation_tokens ≡ m.cache_creation_tokens)
    × (s.cache_hit_rate ≡ m.cache_hit_rate)
    × (s.tokens_in ≡ m.tokens_in)
    × (s.tokens_out ≡ m.tokens_out)
    × (s.max_context_tokens ≡ m.max_context_tokens)
    × (s.gen_tokens_out ≡ m.gen_tokens_out)
    × (s.gen_time_ms ≡ m.gen_time_ms)
unfolding relevant model_matches
query_summary-summarize_example =
    query_summary-summarize quotients sqlite 2000 1_000_000 none (timed ∷ untimed ∷ [])
      (omega arith, omega arith, omega arith, omega arith, omega arith, omega arith)

abbrev works : Outcome
works = record { inserts = true; deletes = true }

abbrev schedule : List Event
schedule = send timed ∷ receive 2000 works ∷ send untimed ∷ timeout 7000 works ∷ []

run-accepted_example :
    let t = run schedule start in
    (filter (λ r. leb 0 r.ts_ms) (t.table ++ map to_row (t.batch ++ t.channel))
      ≡ filter (λ r. leb 0 r.ts_ms) (map to_row (accepted schedule start)))
    × (length t.batch < batch_size)
    × (length t.channel ≤ channel_size)
run-accepted_example =
    run-accepted 0 schedule
      (refl, ((refl, inr (omega arith)), (refl, ((refl, inr (omega arith)), tt))))

-- The first record is in the table, the second still in the channel.
stored : (run schedule start).table ≡ to_row timed ∷ []
unfolding run
stored = refl

-- Tables as their names, and a migration that adds one.
abbrev tables : Sqlite
tables = record {
  Schema = List String;
  has_table = λ name schema. elim schema as (λ s. Bool) [ [] ↦ false | _ ↦ true ];
  execute_batch = λ sql schema. some (sql ∷ schema);
}

abbrev initial : List Migration
initial = ("001_initial", "requests") ∷ []

abbrev before_any : Db tables
before_any = record { schema = []; schema_migrations = none }

abbrev after_all : Db tables
after_all = record { schema = "requests" ∷ []; schema_migrations = some (("001_initial", 5) ∷ []) }

run_migrations-repeated_example :
    AllApplied initial (applied_rows tables after_all)
    × (run_migrations tables 9 initial after_all ≡ some after_all)
    × ((is_legacy tables before_any ≡ false) ⊎ (◌≡◌ {A = List String} ("requests" ∷ []) []))
unfolding run_migrations
run_migrations-repeated_example =
    run_migrations-repeated tables 5 9 initial before_any after_all refl

buckets-panics_example : (buckets quotients none 1000 2000 1000 0 none collector ≡ none) ↔ (
    ((◌≡◌ {A = ℕ} 0 0) ⊎ (1000 < max (1000 / 0) 1))
    × ((1000 ≤ memory_window_ms) ⊎ (◌≡◌ {A = Option (List (StatsBucket quotients))} none none)))
buckets-panics_example = buckets-panics quotients none 1000 2000 1000 0 none collector
