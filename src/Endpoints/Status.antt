-- ===== src/Endpoints/Status.antt =====
-- src/routes/healthz.rs and `get_gate` of src/routes/stats_api.rs.
use mybro.Access.{Headers}
use mybro.Catalog.{Catalog}
use mybro.Concurrency.{Caches, get_effective_concurrency}
use mybro.Config.{Config}
use mybro.Config.Duration.{parse_below}
use mybro.Endpoints.{Reply, json, panicked, guarded}
use mybro.Endpoints.Usage.{count, count_or_null}
use mybro.Gate.{max_queue_size}
use mybro.HandoffCache
use mybro.HandoffCache.{Digest, CacheEntry}
use mybro.Json.{Value, bool, string, object, array, end, field, from_list}
use mybro.KeyPool.{KeyState, KeyStatus, absent, active, cooling, PoolInner, state}
use mybro.Lru.{Lru}
use mybro.Prelude.{
  ℕ, ◌-◌, ◌/◌, ◌^◌, String, Bool, true, false, Option, none, some, List, map, length, filter, ltb,
  ◌==◌, if◌then◌else◌,
}
use Prim.Native.Char.{code}

abbrev pub status_text : KeyStatus → String
status_text absent = "none"
status_text active = "active"
status_text cooling = "cooldown"

abbrev pub has_key : KeyState → Bool
has_key s = elim s.status [ absent ↦ false | active ↦ true | cooling ↦ true ]

-- What follows the first colon, up to the next one: `split(':').nth(1)`.
unfoldable pub up_to_colon : String → String
up_to_colon String.[] = String.[]
up_to_colon (String.◌∷◌ c s) =
    let rest = up_to_colon s in if code c == 58 then String.[] else String.◌∷◌ c rest

unfoldable pub second_part : String → Option String
unfolding up_to_colon
second_part String.[] = none
second_part (String.◌∷◌ c s) =
    let rest = second_part s in if code c == 58 then some (up_to_colon s) else rest

unfoldable pub port : Config → ℕ
unfolding second_part parse_below
port cfg = elim (second_part cfg.listen_addr) [
  | none ↦ 8084
  | some p ↦ elim (parse_below (2 ^ 16) p) [ none ↦ 8084 | some n ↦ n ]
]

-- How serde prints the state of a key.
abbrev pub key_state : KeyState → Value
key_state s = object (
    field "name" (string s.name) (
      field "status" (string (status_text s.status)) (
        field "healthy" (bool s.healthy) (
          field "remainingCooldown" (count s.remaining_cooldown_ms)
            (field "token" (string s.token) end)))))

module _ (lru : Lru Digest CacheEntry) (ct_eq : String → String → Bool) where
  -- The running program, as the two endpoints see it; instants are nanoseconds, and `started_at` is the
  -- text that chrono prints for the start.
  pub record Running : Type 0 where
    pub config : Config
    pub pool : PoolInner
    pub catalog : Option Catalog
    pub handoff_cache : HandoffCache.State lru
    pub started : ℕ
    pub started_at : String
    pub version : String

  abbrev pub health_body : ℕ → List KeyState → Running → Value
  health_body now states r =
      let valid = length (filter has_key states) in
      let cache = HandoffCache.stats lru r.handoff_cache in
      let models : ℕ = elim (r.catalog) [ none ↦ 0 | some cat ↦ length cat.ordered_ids ] in
      object (
        field "ok" (bool true) (
          field "started_at" (string r.started_at) (
            field "uptime_sec" (count ((now - r.started) / 1_000_000_000)) (
              field "api_key_valid" (bool (ltb 0 valid)) (
                field "provider" (string "umans") (
                  field "token_state" (array (from_list (map key_state states))) (
                    field "valid_tokens" (count valid) (
                      field "total_tokens" (count (length states)) (
                        field "models_count" (count models) (
                          field "runtime" (string "rust") (
                            field "runtime_version" (string r.version) (
                              field "port" (count (port r.config)) (
                                field "visionHandoff"
                                  (object (
                                    field "enabled" (bool r.config.vision_handoff_enabled) (
                                      field "cacheEnabled"
                                        (bool r.config.vision_handoff_cache_enabled)
                                        (field "cache"
                                          (object (
                                            field "size" (count cache.size) (
                                              field "maxSize" (count cache.max_size) (
                                                field "ttlMs" (count cache.ttl_ms) (
                                                  field "hits" (count cache.hits) (
                                                    field "misses" (count cache.misses) (
                                                      field "evictions" (count cache.evictions)
                                                        end)))))))
                                          end))))
                                  end)))))))))))))

  -- No authorization is asked for. A panic of the pool's state is one of the endpoint.
  unfoldable pub healthz : ℕ → Running → Reply
  unfolding port
  healthz now r = elim (state now r.pool) [
    | none ↦ panicked
    | some states ↦ json (health_body now states r)
  ]

  -- The gate's counters, and the concurrency in effect.
  unfoldable pub get_gate : Config → Caches → ℕ → ℕ → ℕ → Headers → Reply
  unfolding get_effective_concurrency
  get_gate cfg caches in_flight queued throttled h =
      let eff = get_effective_concurrency cfg.override_concurrency caches in
      guarded ct_eq cfg h (
        json (
          object (
            field "active" (count in_flight) (
              field "queued" (count queued) (
                field "throttled" (count throttled) (
                  field "limit" (count_or_null eff.limit) (
                    field "hard_cap" (count_or_null eff.hard_cap) (
                      field "overridden" (bool eff.overridden)
                        (field "max_queue_size" (count max_queue_size) end)))))))))
