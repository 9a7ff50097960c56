-- ===== src/Endpoints/Usage.antt =====
-- src/routes/usage_api.rs: what the upstream reports, for the dashboard. Instants are nanoseconds.
pub mod History
use mybro.Access.{Headers, active_key}
use mybro.Catalog.{find}
use mybro.Concurrency.{
  UsageData, LastConcurrency, Caches, Fetched, answer, failed, usage_cache_ttl, data_of,
  fetch_usage, fetch_concurrency, get_effective_concurrency,
}
use mybro.Config.{Config}
use mybro.Endpoints.{Reply, json, plain, panicked, guarded, guarded_with}
use mybro.Json.{Value, Fields, null, bool, number, pos_int, string, object, end, field}
use mybro.KeyPool.{PoolInner}
use mybro.Prelude.{
  ℕ, ◌-◌, String, str_eq, str_append, is_empty, Bool, true, false, not, ◌&&◌, Option, none, some,
  List, [], ◌∷◌, ltb, leb, if◌then◌else◌,
}

-- The parameters of a request.
abbrev pub Params : Type 0
Params = List (String × String)

abbrev pub is_fresh_param : Params → Bool
is_fresh_param params = elim (find "fresh" params) [ none ↦ false | some v ↦ str_eq v "1" ]

abbrev pub count : ℕ → Value
count n = number (pos_int n)

abbrev pub count_or_null : Option ℕ → Value
count_or_null none = null
count_or_null (some n) = count n

abbrev pub usage_body : ℕ → ℕ → ℕ → ℕ → String → String → ℕ → Value
usage_body requests tokens_in tokens_out tokens_cached started_at plan throttled = object (
    field "usage"
      (object (
        field "requests_in_window" (count requests) (
          field "tokens_in" (count tokens_in) (
            field "tokens_out" (count tokens_out)
              (field "tokens_cached" (count tokens_cached) end)))))
      (field "window" (object (field "started_at" (string started_at) end)) (
        field "plan" (object (field "display_name" (string plan) end))
          (field "throttled" (count throttled) end))))

abbrev pub empty_usage : ℕ → Value
empty_usage throttled = usage_body 0 0 0 0 "" "" throttled

abbrev pub concurrency_body : ℕ → Option ℕ → Option ℕ → String → Bool → ℕ → ℕ → Value
concurrency_body concurrent limit hard_cap user_id overridden active queued = object (
    field "concurrent" (count concurrent) (
      field "limit" (count_or_null limit) (
        field "hard_cap" (count_or_null hard_cap) (
          field "user_id" (string user_id) (
            field "overridden" (bool overridden)
              (field "active" (count active) (field "queued" (count queued) end)))))))

-- A key to ask the upstream with: `some k` for one that is not empty.
abbrev pub usable : Option String → Option String
usable none = none
usable (some k) = if is_empty k then none else some k

-- The parameters that are passed on, as they came.
abbrev pub query_part : Params → String → String → String
query_part params k before = elim (find k params) [
  | none ↦ before
  | some v ↦
      let part = str_append k (str_append "=" v) in
      if is_empty before then part else str_append before (str_append "&" part)
]

unfoldable pub history_query : Params → String
history_query params =
    query_part params "scope"
      (query_part params "granularity" (query_part params "to" (query_part params "from" "")))

-- `USAGE_HISTORY_CACHE`; no map is the empty one.
abbrev pub HistoryCache : Type 0
HistoryCache = List (String × (ℕ × Value))

unfoldable pub remember : String → ℕ × Value → HistoryCache → HistoryCache
remember query entry [] = (query, entry) ∷ []
remember query entry ((q, old) ∷ cache) =
    if str_eq q query then (query, entry) ∷ cache else (q, old) ∷ remember query entry cache

abbrev pub history_fresh : ℕ → Option (ℕ × Value) → Option Value
history_fresh now none = none
history_fresh now (some (at, v)) = if ltb (now - at) usage_cache_ttl then some v else none

module _ (ct_eq : String → String → Bool) (from_slice : List ℕ → Option Value) where
  unfoldable pub get_usage :
      ℕ → Config → PoolInner → Fetched × ℕ → Caches → Headers → Params → Reply × Caches
  unfolding fetch_usage
  get_usage now cfg pool fetch caches h params =
      guarded_with ct_eq cfg h caches (elim (active_key now cfg pool) [
        | none ↦ (panicked, caches)
        | some key ↦ elim (usable key) [
          | none ↦ (json (empty_usage caches.throttled), caches)
          | some k ↦
              let r = fetch_usage from_slice now (is_fresh_param params) fetch caches in
              let body : Value = elim (r.0) [
                | none ↦ empty_usage r.1.throttled
                | some d ↦
                    usage_body d.requests_in_window d.tokens_in d.tokens_out d.tokens_cached
                      d.window_started_at d.plan_display_name r.1.throttled
              ] in
              (json body, r.1)
        ]
      ])

  -- `active` and `queued` are the gate's counters.
  unfoldable pub get_concurrency :
      ℕ → Config → PoolInner → ℕ → ℕ → Fetched × ℕ → Caches → Headers → Params → Reply × Caches
  unfolding fetch_concurrency get_effective_concurrency
  get_concurrency now cfg pool active queued fetch caches h params =
      guarded_with ct_eq cfg h caches (elim (active_key now cfg pool) [
        | none ↦ (panicked, caches)
        | some key ↦ elim (usable key) [
          | none ↦ (json (concurrency_body 0 none none "" false active queued), caches)
          | some k ↦
              let r = fetch_concurrency from_slice now (is_fresh_param params) fetch caches in
              let eff = get_effective_concurrency cfg.override_concurrency r.1 in
              let body : Value = elim (r.0) [
                | none ↦ concurrency_body 0 none none "" eff.overridden active queued
                | some d ↦
                    concurrency_body d.concurrent d.limit d.hard_cap d.user_id eff.overridden active
                      queued
              ] in
              (json body, r.1)
        ]
      ])

  -- The value of a body, `{}` for what is no JSON.
  abbrev pub parsed_or_empty : List ℕ → Value
  parsed_or_empty bytes = elim (from_slice bytes) [ none ↦ object end | some v ↦ v ]

  -- The call of the upstream and what is made of its answer, which arrives at `done`.
  unfoldable pub fetch_history : String → Fetched → ℕ → HistoryCache → Reply × HistoryCache
  unfolding remember
  fetch_history query failed done cache = (plain 502 "Failed to fetch usage history", cache)
  fetch_history query (answer status bytes) done cache =
      if leb 200 status && ltb status 300
      then elim bytes [
        | none ↦ (plain 502 "Failed to read usage history", cache)
        | some bs ↦ let v = parsed_or_empty bs in (json v, remember query (done, v) cache)
      ]
      else (plain 502 "Upstream error", cache)

  unfoldable pub get_usage_history :
      ℕ → Config → PoolInner → Fetched × ℕ → HistoryCache → Headers → Params → Reply × HistoryCache
  unfolding fetch_history history_query
  get_usage_history now cfg pool fetch cache h params =
      let query = history_query params in
      let cached = if is_fresh_param params then none else history_fresh now (find query cache) in
      guarded_with ct_eq cfg h cache (elim (active_key now cfg pool) [
        | none ↦ (panicked, cache)
        | some key ↦ elim (usable key) [
          | none ↦ (plain 503 "No active key", cache)
          | some k ↦ elim cached [
            | some v ↦ (json v, cache)
            | none ↦ fetch_history query fetch.0 fetch.1 cache
          ]
        ]
      ])

  unfoldable pub get_user : Config → Caches → Headers → Reply
  get_user cfg caches h =
      let user_id : String = elim (data_of caches.concurrency) [ none ↦ "" | some c ↦ c.user_id ] in
      guarded ct_eq cfg h (
        json (
          object (
            field "loggedIn" (bool (not (is_empty user_id)))
              (field "email" (string "") (field "user_id" (string user_id) end)))))
