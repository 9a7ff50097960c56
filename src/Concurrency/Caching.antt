-- ===== src/Concurrency/Caching.antt =====
-- What the cache of the upstream's usage answers.
use mybro.Concurrency.{
  UsageData, Caches, Fetched, usage_cache_ttl, fresh_in_cache, data_of, store_usage, reading,
  fetch_usage,
}
use mybro.Json.{Value}
use mybro.Prelude.{
  ℕ, ◌-◌, ◌<◌, ◌≡◌, refl, Bool, true, false, Option, none, some, List, Option-cases, inl, inr, ltb,
  arith,
}

fresh_in_cache-data_of :
    {A : Type 0} (now : ℕ) (o : Option (A × ℕ)) (d : A)
    → fresh_in_cache now o ≡ some d
    → data_of o ≡ some d
fresh_in_cache-data_of now none d h = absurd (ground arith)
fresh_in_cache-data_of now (some (e, at)) d h = ground arith

module _ (from_slice : List ℕ → Option Value) where
  -- Where the upstream gives no reading, for whatever reason and however old the cache is, a fetch
  -- answers with the last reading there is, and changes nothing.
  fetch_usage-no_reading :
      (now : ℕ) (fresh : Bool) (fetch : Fetched × ℕ) (c : Caches)
      → reading from_slice fetch.0 ≡ none
      → fetch_usage from_slice now fresh fetch c ≡ (data_of c.usage, c)
  unfolding fetch_usage
  fetch_usage-no_reading now true fetch c h = rw (fetch_usage, h) refl
  fetch_usage-no_reading now false fetch c h = elim (Option-cases (fresh_in_cache now c.usage)) [
    | inl e ↦ rw (fetch_usage, e, h) refl
    | inr (d, e) ↦ let q = fresh_in_cache-data_of now c.usage d e in rw (fetch_usage, e, q) refl
  ]

  -- After a reading has arrived, every fetch within 300 seconds that does not insist on a new one
  -- answers with it, without a call of the upstream, and changes nothing.
  pub fetch_usage_again :
      (now now' : ℕ) (fetch fetch' : Fetched × ℕ) (u : UsageData) (c : Caches)
      → reading from_slice fetch.0 ≡ some u
      → now' - fetch.1 < usage_cache_ttl
      → let c' = (fetch_usage from_slice now true fetch c).1 in
        fetch_usage from_slice now' false fetch' c' ≡ (some u, c')
  unfolding fetch_usage store_usage
  fetch_usage_again now now' fetch fetch' u c got early =
      let live : ltb (now' - fetch.1) usage_cache_ttl ≡ true = ground arith in
      let e : fetch_usage from_slice now true fetch c ≡ (some u, store_usage fetch.1 u c) =
        rw (fetch_usage, got) refl in
      rw e (rw (fetch_usage, live) refl)
