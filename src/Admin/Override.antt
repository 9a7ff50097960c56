-- ===== src/Admin/Override.antt =====
-- The configured override and the gate.
use mybro.Access.{Headers, check_auth}
use mybro.Admin.{ConfigUpdate, Shared, limit_of, post_config, apply_update}
use mybro.Concurrency.{Fetch, run, no_caches, get_effective_concurrency}
use mybro.Concurrency.Override.{run-override}
use mybro.Gate.{reconcile}
use mybro.Gate.Permits.{Semaphore}
use mybro.HandoffCache.{Digest, CacheEntry}
use mybro.Json.{Value}
use mybro.Lru.{Lru}
use mybro.Prelude.{
  ℕ, ◌≡◌, refl, sym, ap, ◌∙◌, String, Bool, not, Option, some, List, Bool-cases, inl, inr,
}

module _ (semaphore : Semaphore) (lru : Lru Digest CacheEntry) (ct_eq : String → String → Bool)
    (from_slice : List ℕ → Option Value) where
  -- After any fetches since the start, the gate after an update of the configuration is the same for
  -- every override of the concurrency that the update carries.
  pub post_config-override :
      (fs : List (Fetch from_slice)) (headers : Headers) (u : ConfigUpdate) (v w : ℕ)
      (st : Shared semaphore lru ct_eq)
      → st.caches ≡ run from_slice fs no_caches
      → (post_config semaphore lru ct_eq headers
          (record u { override_concurrency = some v })
          st).1.gate
        ≡ (post_config semaphore lru ct_eq headers
            (record u { override_concurrency = some w })
            st).1.gate
  unfolding post_config apply_update
  post_config-override fs headers u v w st h =
      let same : get_effective_concurrency v st.caches ≡ get_effective_concurrency w st.caches =
        rw h ((run-override from_slice fs v).0 ∙ sym (run-override from_slice fs w).0) in
      elim (Bool-cases (not (check_auth ct_eq st.config headers))) [
        | inl e ↦ rw (post_config, e) refl
        | inr e ↦ rw (post_config, e) (ap (λ eff. reconcile semaphore (limit_of eff) st.gate) same)
      ]
