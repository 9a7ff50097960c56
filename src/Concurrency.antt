-- ===== src/Concurrency.antt =====
-- src/usage.rs: what the upstream reports of the account, its caches, and the concurrency in effect.
-- Instants are nanoseconds. A fetch is one step: the guard of the source lets one at a time.
pub mod Caching
pub mod Override
mod Examples
use mathlib.Core.Option
use mybro.Gate.{default_concurrency_limit}
use mybro.Json.{Value, get, get_then, as_u64, as_str}
use mybro.Prelude.{
  ℕ, ◌+◌, ◌-◌, ◌*◌, ◌%◌, ◌^◌, min, String, str_eq, Bool, true, false, not, ◌&&◌, Option, none, some,
  List, [], ◌∷◌, ltb, leb, if◌then◌else◌,
}

pub record UsageData : Type 0 where
  pub requests_in_window : ℕ
  pub tokens_in : ℕ
  pub tokens_out : ℕ
  pub tokens_cached : ℕ
  pub window_started_at : String
  pub plan_display_name : String
  pub raw : Value

pub record LastConcurrency : Type 0 where
  pub concurrent : ℕ
  pub limit : Option ℕ
  pub hard_cap : Option ℕ
  pub user_id : String

pub record Effective : Type 0 where
  pub hard_cap : Option ℕ
  pub limit : Option ℕ
  pub overridden : Bool

-- The statics of the module: each cache with the instant of its fetch, and the throttle counter.
pub record Caches : Type 0 where
  pub usage : Option (UsageData × ℕ)
  pub concurrency : Option (LastConcurrency × ℕ)
  pub effective : Option Effective
  pub throttled : ℕ

-- What a call of `get_usage` comes to: a response with its body, `none` where it cannot be read, or
-- no response.
pub data Fetched : Type 0 where
  answer : ℕ → Option (List ℕ) → Fetched
  failed : Fetched

-- 300 seconds.
abbrev pub usage_cache_ttl : ℕ
usage_cache_ttl = 300 * 1_000_000_000

abbrev pub fresh_in_cache {ℓ} : {A : Type ℓ} → ℕ → Option (A × ℕ) → Option A
fresh_in_cache now none = none
fresh_in_cache now (some (data', at)) = if ltb (now - at) usage_cache_ttl then some data' else none

abbrev pub data_of {ℓ} : {A : Type ℓ} → Option (A × ℕ) → Option A
data_of c = Option.map (λ e. e.0) c

-- Numbers and texts below a field, with the defaults of the source.
abbrev pub number_in : String → String → Value → ℕ
number_in outer inner v = elim (get_then outer (get_then inner as_u64) v) [ none ↦ 0 | some n ↦ n ]

abbrev pub text_in : String → String → Value → String
text_in outer inner v = elim (get_then outer (get_then inner as_str) v) [ none ↦ "" | some s ↦ s ]

unfoldable pub usage_data : Value → UsageData
usage_data v = record {
  requests_in_window = number_in "usage" "requests_in_window" v;
  tokens_in = number_in "usage" "tokens_in" v;
  tokens_out = number_in "usage" "tokens_out" v;
  tokens_cached = number_in "usage" "tokens_cached" v;
  window_started_at = text_in "window" "started_at" v;
  plan_display_name = text_in "plan" "display_name" v;
  raw = v;
}

abbrev pub same_window : UsageData → Option (UsageData × ℕ) → Bool
same_window d none = false
same_window d (some (old, at)) = str_eq old.window_started_at d.window_started_at

-- A new reading goes to the cache; a new window resets the throttle counter.
unfoldable pub store_usage : ℕ → UsageData → Caches → Caches
store_usage done d c = record c {
  usage = some (d, done);
  throttled = if same_window d c.usage then c.throttled else 0;
}

-- `as u32` of a u64.
abbrev pub as_u32 : ℕ → ℕ
as_u32 n = n % 2 ^ 32

abbrev pub limit_in : String → Value → Option ℕ
limit_in k v = Option.map as_u32 (get_then "limits" (get_then "concurrency" (get_then k as_u64)) v)

unfoldable pub last_concurrency_of : UsageData → LastConcurrency
last_concurrency_of d = record {
  concurrent = as_u32 (number_in "usage" "concurrent_sessions" d.raw);
  limit = limit_in "limit" d.raw;
  hard_cap = limit_in "hard_cap" d.raw;
  user_id = elim (get_then "user_id" as_str d.raw) [ none ↦ "" | some s ↦ s ];
}

unfoldable pub compute_effective_from_conc : LastConcurrency → ℕ → Effective
compute_effective_from_conc conc config_override =
    if ltb 0 config_override
    then record {
      hard_cap = elim conc.hard_cap [
        | some c ↦ some (min config_override c)
        | none ↦ some config_override
      ];
      limit = some config_override;
      overridden = true;
    }
    else record {
      hard_cap = conc.hard_cap;
      limit = elim conc.limit [ some l ↦ some l | none ↦ some default_concurrency_limit ];
      overridden = false;
    }

unfoldable pub compute_effective : ℕ → Caches → Effective
compute_effective config_override c = elim c.concurrency [
  | some (conc, at) ↦ compute_effective_from_conc conc config_override
  | none ↦ record { hard_cap = none; limit = some default_concurrency_limit; overridden = false }
]

unfoldable pub recompute_effective : LastConcurrency → ℕ → Caches → Caches
recompute_effective conc config_override c = record c {
  effective = some (compute_effective_from_conc conc config_override);
}

unfoldable pub get_effective_concurrency : ℕ → Caches → Effective
get_effective_concurrency config_override c = elim c.effective [
  | some eff ↦ eff
  | none ↦ compute_effective config_override c
]

-- `serde_json::from_slice`; `fetch` is what the call of the upstream comes to and when it is over.
module _ (from_slice : List ℕ → Option Value) where
  -- The call of the upstream: its reading, if it gives one.
  unfoldable pub reading : Fetched → Option UsageData
  reading failed = none
  reading (answer status none) = none
  reading (answer status (some body)) =
      if leb 200 status && ltb status 300
      then elim (from_slice body) [ none ↦ none | some v ↦ some (usage_data v) ]
      else none

  unfoldable pub fetch_usage : ℕ → Bool → Fetched × ℕ → Caches → Option UsageData × Caches
  fetch_usage now fresh fetch c = elim (if fresh then none else fresh_in_cache now c.usage) [
    | some d ↦ (some d, c)
    | none ↦ elim (reading fetch.0) [
      | none ↦ (data_of c.usage, c)
      | some d ↦ (some d, store_usage fetch.1 d c)
    ]
  ]

  -- When `fetch_usage` returns.
  unfoldable pub returns_at : ℕ → Bool → Fetched × ℕ → Caches → ℕ
  returns_at now fresh fetch c = elim (if fresh then none else fresh_in_cache now c.usage) [
    | some d ↦ now
    | none ↦ fetch.1
  ]

  unfoldable pub fetch_concurrency :
      ℕ → Bool → Fetched × ℕ → Caches → Option LastConcurrency × Caches
  fetch_concurrency now fresh fetch c =
      elim (if fresh then none else fresh_in_cache now c.concurrency) [
        | some d ↦ (some d, c)
        | none ↦
            let r = fetch_usage now fresh fetch c in
            elim r.0 [
              | none ↦ (none, r.1)
              | some u ↦
                  let conc = last_concurrency_of u in
                  (
                    some conc,
                    recompute_effective conc 0
                        (record r.1 { concurrency = some (conc, returns_at now fresh fetch c) }),
                  )
            ]
      ]

  -- The two fetches, by whoever asks: `true` for the concurrency.
  pub record Fetch : Type 0 where
    pub of_concurrency : Bool
    pub now : ℕ
    pub fresh : Bool
    pub fetch : Fetched × ℕ

  unfoldable pub run : List Fetch → Caches → Caches
  run [] c = c
  run (f ∷ fs) c =
      if f.of_concurrency
      then run fs (fetch_concurrency f.now f.fresh f.fetch c).1
      else run fs (fetch_usage f.now f.fresh f.fetch c).1

abbrev pub no_caches : Caches
no_caches = record { usage = none; concurrency = none; effective = none; throttled = 0 }
