-- ===== src/Endpoints/Usage/History.antt =====
-- The cache of the usage history.
use mybro.Access.{Headers, check_auth, active_key}
use mybro.Catalog.{find}
use mybro.Concurrency.{Fetched, answer, usage_cache_ttl}
use mybro.Config.{Config}
use mybro.Endpoints.{json}
use mybro.Endpoints.Usage.{
  Params, is_fresh_param, history_fresh, history_query, HistoryCache, remember, fetch_history,
  parsed_or_empty, get_usage_history,
}
use mybro.Json.{Value}
use mybro.KeyPool.{PoolInner}
use mybro.Prelude.{
  ℕ, ◌-◌, ◌<◌, ◌≡◌, refl, sym, sym, ap, ◌∙◌, inl, inr, String, is_empty, str_eq, eq_iff, Bool, true,
  false, ◌&&◌, Option, none, ◌⊎◌, if◌then◌else◌, some, List, [], ◌∷◌, ltb, leb, Bool-cases, arith,
}

find-remember_self :
    (query : String) (entry : ℕ × Value) (cache : HistoryCache)
    → find query (remember query entry cache) ≡ some entry
unfolding remember
find-remember_self query entry [] = let e = (eq_iff query query).1 refl in rw (find, e) refl
find-remember_self query entry ((q, old) ∷ cache) = elim (Bool-cases (str_eq q query)) [
  | inl e ↦ let f = (eq_iff query query).1 refl in rw (remember, e) (rw (find, f) refl)
  | inr e ↦ rw (remember, e) (rw (find, e) (find-remember_self query entry cache))
]

module _ (ct_eq : String → String → Bool) (from_slice : List ℕ → Option Value) where
  -- The caller is let in, and there is a key to ask with.
  abbrev pub Served : ℕ → Config → PoolInner → Headers → String → Type 0
  Served now cfg pool h k =
      (check_auth ct_eq cfg h ≡ true)
      × (active_key now cfg pool ≡ some (some k))
      × (is_empty k ≡ false)

  -- The upstream is asked: the request insists on a new history, or the cache has no fresh one for it.
  abbrev pub Asked : ℕ → HistoryCache → Params → Type 0
  Asked now cache params =
      (is_fresh_param params ≡ true)
      ⊎ (history_fresh now (find (history_query params) cache) ≡ none)

  asks :
      (now : ℕ) (cache : HistoryCache) (params : Params)
      → Asked now cache params
      → (if is_fresh_param params
          then none
          else history_fresh now (find (history_query params) cache))
        ≡ none
  asks now cache params (inl e) = rw e refl
  asks now cache params (inr e) = elim (Bool-cases (is_fresh_param params)) [
    | inl f ↦ rw f refl
    | inr f ↦ rw f e
  ]

  -- Once a request that insists on a new history, or finds no fresh one in the cache, has got a history from
  -- the upstream, the next request with the same four parameters and within
  -- five minutes that does not insist on a new one is answered with the same value, whatever the upstream
  -- would answer by then and whichever key is in use, and leaves the cache as it is.
  pub get_usage_history-again :
      (now done later : ℕ) (cfg cfg' : Config) (pool pool' : PoolInner) (bytes : List ℕ)
      (status : ℕ) (fetch' : Fetched × ℕ) (cache : HistoryCache) (h h' : Headers)
      (params params' : Params) (k k' : String)
      → Served now cfg pool h k
      → Served later cfg' pool' h' k'
      → (leb 200 status && ltb status 300) ≡ true
      → Asked now cache params
      → is_fresh_param params' ≡ false
      → history_query params' ≡ history_query params
      → later - done < usage_cache_ttl
      → let first =
          get_usage_history ct_eq from_slice now cfg pool
            (answer status (some bytes), done)
            cache
            h
            params in
        (first.0 ≡ json (parsed_or_empty ct_eq from_slice bytes))
        × (get_usage_history ct_eq from_slice later cfg' pool' fetch' first.1 h' params' ≡ first)
  unfolding get_usage_history fetch_history
  get_usage_history-again now done later cfg cfg' pool pool' bytes status fetch' cache h h' params
        params' k k' (auth, act, filled) (auth', act', filled') ok ask again same soon =
      let v = parsed_or_empty ct_eq from_slice bytes in
      let query = history_query params in
      let hit = find-remember_self query (done, v) cache in
      let young : ltb (later - done) usage_cache_ttl ≡ true = ground arith in
      let first : get_usage_history ct_eq from_slice now cfg pool (answer status (some bytes), done)
            cache h params
          ≡ (json v, remember query (done, v) cache) =
        rw (get_usage_history, auth, act, filled, asks now cache params ask, ok) refl in
      let cache' = remember query (done, v) cache in
      let asked : find (history_query params') cache' ≡ some (done, v) =
        ap (λ q. find q cache') same ∙ hit in
      let second : get_usage_history ct_eq from_slice later cfg' pool' fetch' cache' h' params'
          ≡ (json v, cache') =
        rw (get_usage_history, auth', act', filled', again, asked, young) refl in
      (
        ap (λ r. r.0) first,
        ap (λ r. get_usage_history ct_eq from_slice later cfg' pool' fetch' r.1 h' params') first
            ∙ second
            ∙ sym first,
      )
