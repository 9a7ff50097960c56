-- ===== src/Stats.antt =====
-- src/stats.rs: the ring buffer of request records, and what the dashboard computes from it.
-- Additions of 64-bit figures wrap, as in a release build; numbers of records, at most 10,000, are as they are.
-- Averages, rates and percentile ranks are floats, taken as abstract operations.
pub mod Ring
pub mod Tokens
pub mod Summary
pub mod Series
pub mod Buckets
pub mod Percentiles
pub mod Panics
mod Examples
use mybro.Prelude.{
  ℕ, zero, suc, ◌+◌, ◌-◌, ◌*◌, ◌/◌, ◌%◌, ◌^◌, max, min, ◌≡◌, String, str_eq, Bool, true, false, not,
  ◌&&◌, ◌||◌, Option, none, some, List, [], ◌∷◌, ◌++◌, map, length, filter, take, total, get_elem?,
  set, ltb, leb, ◌==◌, if◌then◌else◌,
}
use mathlib.Core.List.{reverse}

pub record RequestRecord : Type 0 where
  pub ts_ms : ℕ
  pub duration_ms : ℕ
  pub ttft_ms : Option ℕ
  pub status : ℕ
  pub model : String
  pub pipeline : String
  pub key_name : String
  pub tokens_in : ℕ
  pub tokens_out : ℕ
  pub cached_tokens : ℕ
  pub cache_creation_tokens : ℕ
  pub cached : Bool
  pub error : Option String

-- The in-memory part of the collector, oldest record first.
pub record StatsCollector : Type 0 where
  pub records : List RequestRecord
  pub max_records : ℕ

unfoldable pub with_capacity : ℕ → StatsCollector
with_capacity max = record { records = []; max_records = max }

-- `VecDeque::pop_front`.
abbrev pub pop_front {ℓ} : {A : Type ℓ} → List A → List A
pop_front [] = []
pop_front (x ∷ xs) = xs

-- `record`, without the copy that is sent to the database's channel.
unfoldable pub push_record : RequestRecord → StatsCollector → StatsCollector
push_record rec c = record c {
  records =
      (if leb c.max_records (length c.records) then pop_front c.records else c.records) ++ rec ∷ [];
}

-- `model.is_none_or(|m| r.model == m)`.
unfoldable pub model_matches : Option String → RequestRecord → Bool
model_matches none r = true
model_matches (some m) r = str_eq r.model m

-- The newest records first.
unfoldable pub recent : ℕ → Option String → StatsCollector → List RequestRecord
recent limit model c = take limit (filter (model_matches model) (reverse c.records))

-- What the source computes in `f64`.
pub record Floats : Type 1 where
  pub F : Type 0
  pub zero_float : F
  pub ratio : ℕ → ℕ → F
  -- `((p / 100.0) * (len - 1)).round()`
  pub rank : ℕ → ℕ → ℕ
  pub as_f64 : ℕ → F

abbrev pub is_error : RequestRecord → Bool
is_error r = leb 400 r.status

abbrev pub is_throttled : RequestRecord → Bool
is_throttled r = r.status == 429 || r.status == 503

abbrev pub sum : List ℕ → ℕ
sum = total (λ n. n)

-- `+=` on `u64` in a release build; and the sum of an iterator, whose wraps come to one at the end.
abbrev pub add64 : ℕ → ℕ → ℕ
add64 a b = (a + b) % 2 ^ 64

abbrev pub sum64 : List ℕ → ℕ
sum64 ns = sum ns % 2 ^ 64

-- `iter().max().unwrap_or(0)`.
abbrev pub maximum : List ℕ → ℕ
maximum [] = 0
maximum (n ∷ ns) = max n (maximum ns)

unfoldable pub filter_map {ℓ κ} : {A : Type ℓ} {B : Type κ} → (A → Option B) → List A → List B
filter_map f [] = []
filter_map f (x ∷ xs) = elim (f x) [ none ↦ filter_map f xs | some b ↦ b ∷ filter_map f xs ]

-- One step of the fold for the generation throughput, before wraps.
unfoldable pub add_generation : ℕ × ℕ → RequestRecord → ℕ × ℕ
add_generation (tok, time) r = elim r.ttft_ms [
  | none ↦ (tok, time)
  | some ttft ↦
      if ltb ttft r.duration_ms
      then (tok + r.tokens_out, time + (r.duration_ms - ttft))
      else (tok, time)
]

unfoldable pub generation : ℕ × ℕ → List RequestRecord → ℕ × ℕ
generation acc [] = acc
generation acc (r ∷ rs) = generation (add_generation acc r) rs

-- The records that a summary is about; there is no upper bound on the time stamp.
unfoldable pub relevant : ℕ → ℕ → Option String → List RequestRecord → List RequestRecord
relevant now_ms window_ms model records =
    filter (model_matches model) (filter (λ r. leb (now_ms - window_ms) r.ts_ms) records)

abbrev pub memory_window_ms : ℕ
memory_window_ms = 5 * 60 * 1000

module _ (floats : Floats) where
  open floats use {F, zero_float, ratio}

  pub record StatsSummary : Type 0 where
    pub count : ℕ
    pub errors : ℕ
    pub throttled : ℕ
    pub cached : ℕ
    pub cached_tokens : ℕ
    pub cache_creation_tokens : ℕ
    pub cache_hit_rate : F
    pub tokens_in : ℕ
    pub tokens_out : ℕ
    pub avg_latency_ms : F
    pub avg_ttft_ms : F
    pub max_context_tokens : ℕ
    pub gen_tokens_out : ℕ
    pub gen_time_ms : ℕ

  -- `if d > 0 { n / d } else { 0.0 }`.
  abbrev pub rate : ℕ → ℕ → F
  rate n d = if ltb 0 d then ratio n d else zero_float

  -- The summary of the in-memory records.
  unfoldable pub summarize : List RequestRecord → StatsSummary
  summarize rs = record {
    count = length rs;
    errors = length (filter is_error rs);
    throttled = length (filter is_throttled rs);
    cached = length (filter (λ r. r.cached) rs);
    cached_tokens = sum64 (map (λ r. r.cached_tokens) rs);
    cache_creation_tokens = sum64 (map (λ r. r.cache_creation_tokens) rs);
    cache_hit_rate =
        rate (sum64 (map (λ r. r.cached_tokens) rs)) (sum64 (map (λ r. r.tokens_in) rs));
    tokens_in = sum64 (map (λ r. r.tokens_in) rs);
    tokens_out = sum64 (map (λ r. r.tokens_out) rs);
    avg_latency_ms = rate (sum64 (map (λ r. r.duration_ms) rs)) (length rs);
    avg_ttft_ms =
        rate (sum64 (filter_map (λ r. r.ttft_ms) rs)) (length (filter_map (λ r. r.ttft_ms) rs));
    max_context_tokens = maximum (map (λ r. r.tokens_in) rs);
    gen_tokens_out = (generation (0, 0) rs).0 % 2 ^ 64;
    gen_time_ms = (generation (0, 0) rs).1 % 2 ^ 64;
  }

  -- `db` is the database's answer: `none` without a database or where the query fails.
  unfoldable pub summary :
      Option StatsSummary → ℕ → ℕ → Option String → StatsCollector → StatsSummary
  summary db now_ms window_ms model c =
      let memory = summarize (relevant now_ms window_ms model c.records) in
      if ltb memory_window_ms window_ms then elim db [ some s ↦ s | none ↦ memory ] else memory
