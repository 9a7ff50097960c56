-- ===== src/Admin/Examples.antt =====
-- Updates at concrete inputs: tests, and the theorems applied.
use mybro.Access.{Headers, check_auth, grants, provided, is_valid, first_key}
use mybro.Admin.{
  initial_entries, update_key, delete_key, ConfigUpdate, Shared, placeholder, apply_action,
  apply_update, remove_at, post_keys, post_config, needs_restart,
}
use mybro.Admin.Sync.{
  Event, keys_loaded, stored, finished, acquired, failed, load, store, finish, step, run, start,
  run-acquire, entry_shown, key_shown,
}
use mybro.Concurrency.{Fetch, answer, no_caches, run as fetches}
use mybro.Config.{Config, ConfigKey, default_config}
use mybro.Gate.{new as new_gate, reconcile}
use mybro.Gate.Permits.{counting}
use mybro.HandoffCache.{Digest, CacheEntry, new as new_cache, resize}
use mybro.KeyPool.{
  new, acquire, from_config, is_usable, is_past_cooldown, from_secs, mark_unhealthy, mark_healthy,
  rebuild, round_robin, try_preferred,
}
use mybro.Json.{Value, null}
use mybro.Lru.{Lru}
use mybro.Lru.Lists.{list_lru}
use mybro.Prelude.{
  map, ℕ, ◌≡◌, refl, String, str_eq, true, false, Option, none, some, List, [], ◌∷◌, get_elem?,
  codes_eq, codes_eq_sound, codes_eq_self, arith,
}

program : Unit {0}
unfolding initial_entries apply_action apply_update remove_at post_keys post_config needs_restart
    step run check_auth grants provided is_valid first_key new_gate reconcile new_cache resize new
    acquire from_config is_usable is_past_cooldown mark_unhealthy mark_healthy rebuild round_robin
    try_preferred
program = tt

abbrev lists : Lru Digest CacheEntry
lists = list_lru codes_eq codes_eq_sound codes_eq_self 49

abbrev key_of : String → String → ConfigKey
key_of name key = record { name = name; key = key; session = "" }

abbrev config : Config
config = record default_config {
  keys = key_of "one" "sk-1" ∷ key_of "two" "sk-2" ∷ [];
  api_key = "sk-1";
}

-- Deleting the first key hands the program's own calls to the next; deleting the last leaves the
-- placeholder; an index past the end changes nothing.
deleted :
    apply_action (delete_key 0) config
    ≡ record config { keys = key_of "two" "sk-2" ∷ []; api_key = "sk-2" }
unfolding apply_action remove_at first_key
deleted = refl

emptied :
    apply_action (delete_key 0) (apply_action (delete_key 0) config)
    ≡ record config { keys = placeholder ∷ []; api_key = "" }
unfolding apply_action remove_at first_key
emptied = refl

past_end : apply_action (update_key 2 (key_of "three" "sk-3")) config ≡ config
unfolding apply_action
past_end = refl

abbrev server : Shared counting lists str_eq
server = record {
  config = config;
  pool = new (initial_entries config);
  gate = new_gate counting none;
  handoff_cache = new_cache lists 50 (from_secs 86_400);
  caches = no_caches;
  pinged = false;
}

abbrev open_door : Headers
open_door = record { x_api_key = none; authorization = none }

-- A key fails, and the first one is deleted while keys are handed out: the second has moved to index 0.
abbrev events : List Event
events =
    failed 0 1 503
    ∷ keys_loaded (delete_key 0)
    ∷ acquired 2 none
    ∷ stored 0
    ∷ acquired 3 none
    ∷ finished 0
    ∷ []

run-acquire_example :
    (k : ConfigKey) × (get_elem? (run events (start config)).config.keys 0 ≡ some k)
    × (k.key ≡ "sk-2")
    × (k.name ≡ "two")
unfolding new run step load store finish mark_unhealthy rebuild apply_action remove_at
    initial_entries from_config acquire try_preferred round_robin is_usable is_past_cooldown
run-acquire_example =
    run-acquire events config 0 none (record { index = 0; key = "sk-2"; name = "two" })
      (omega arith) refl refl refl

-- Two updates that load the same configuration: both handlers finish, and the pool has keys that are not
-- configured.
abbrev race : List Event
race =
    keys_loaded (delete_key 0)
    ∷ keys_loaded (delete_key 1)
    ∷ stored 0
    ∷ stored 1
    ∷ finished 1
    ∷ finished 0
    ∷ []

raced :
    (map entry_shown (run race (start config)).pool.entries ≡ ("sk-2", "two") ∷ [])
    × (map key_shown (run race (start config)).config.keys ≡ ("sk-1", "one") ∷ [])
unfolding new run step load store finish rebuild apply_action remove_at initial_entries from_config
raced = (refl, refl)

abbrev no_update : ConfigUpdate
no_update = record {
  api_key = none;
  api_keys = none;
  listen_addr = none;
  enabled_models = none;
  model_display_names = none;
  wallpaper_source = none;
  override_concurrency = none;
  max_images = none;
  disabled_models = none;
  vision_handoff_enabled = none;
  vision_handoff_model = none;
  vision_handoff_prompt = none;
  vision_handoff_cache_enabled = none;
  keys = none;
}

abbrev parse : List ℕ → Option Value
parse bytes = some null

abbrev fetched : List (Fetch parse)
fetched =
    record { of_concurrency = true; now = 3; fresh = true; fetch = (answer 200 (some []), 5) } ∷ []

abbrev fetched_server : Shared counting lists str_eq
fetched_server = record server { caches = fetches parse fetched no_caches }
