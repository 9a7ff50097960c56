-- ===== src/Admin.antt =====
-- src/routes/keys_api.rs and src/routes/config_api.rs: the updates of the configuration, with what they
-- do to the pool, the gate and the handoff cache; and the start of src/main.rs that fills the pool.
pub mod Sync
pub mod Override
mod Examples
use mathlib.Core.Option
use mybro.Access.{Headers, check_auth, first_key}
use mybro.Concurrency.{Effective, Caches, get_effective_concurrency}
use mybro.Config.{
  Config, ConfigKey, WallpaperSource, none_source, bing, wallhaven, handoff_cache_ttl_duration,
}
use mybro.Gate.{Gate, reconcile}
use mybro.Gate.Permits.{Semaphore}
use mybro.HandoffCache
use mybro.HandoffCache.{Digest, CacheEntry}
use mybro.KeyPool.{KeyEntry, PoolInner, from_config, rebuild, new}
use mybro.Lru.{Lru}
use mybro.Prelude.{
  ℕ, zero, suc, String, str_eq, is_empty, Bool, true, false, not, ◌&&◌, ◌||◌, Option, none, some,
  List, [], ◌∷◌, ◌++◌, map, length, set, ltb, ◌==◌, if◌then◌else◌,
}

-- The entries that the pool starts with.
unfoldable pub initial_entries : Config → List KeyEntry
initial_entries cfg = elim cfg.keys [
  | [] ↦
      if is_empty cfg.api_key
      then []
      else from_config (record { name = "Default"; key = cfg.api_key; session = "" }) ∷ []
  | k ∷ ks ↦ map from_config (k ∷ ks)
]

pub data KeyAction : Type 0 where
  add_key : ConfigKey → KeyAction
  update_key : ℕ → ConfigKey → KeyAction
  delete_key : ℕ → KeyAction

-- `Vec::remove`.
unfoldable pub remove_at {ℓ} : {A : Type ℓ} → List A → ℕ → List A
remove_at [] i = []
remove_at (x ∷ xs) zero = xs
remove_at (x ∷ xs) (suc i) = x ∷ remove_at xs i

abbrev pub placeholder : ConfigKey
placeholder = record { name = "Key 1"; key = ""; session = "" }

abbrev pub or_placeholder : List ConfigKey → List ConfigKey
or_placeholder [] = placeholder ∷ []
or_placeholder (k ∷ ks) = k ∷ ks

unfoldable pub apply_action : KeyAction → Config → Config
unfolding remove_at first_key
apply_action (add_key k) cfg = record cfg {
  keys = cfg.keys ++ k ∷ [];
  api_key = if is_empty cfg.api_key then k.key else cfg.api_key;
}
apply_action (update_key index k) cfg =
    if ltb index (length cfg.keys)
    then record cfg {
      keys = set cfg.keys index k;
      api_key = if index == 0 && not (is_empty k.key) then k.key else cfg.api_key;
    }
    else cfg
apply_action (delete_key index) cfg =
    if ltb index (length cfg.keys)
    then record cfg {
      keys = or_placeholder (remove_at cfg.keys index);
      api_key =
          if index == 0 then first_key (or_placeholder (remove_at cfg.keys index)) else cfg.api_key;
    }
    else cfg

-- What a request to change the configuration carries.
pub record ConfigUpdate : Type 0 where
  pub api_key : Option String
  pub api_keys : Option (List String)
  pub listen_addr : Option String
  pub enabled_models : Option (List String)
  pub model_display_names : Option (List (String × String))
  pub wallpaper_source : Option String
  pub override_concurrency : Option ℕ
  pub max_images : Option ℕ
  pub disabled_models : Option (List String)
  pub vision_handoff_enabled : Option Bool
  pub vision_handoff_model : Option String
  pub vision_handoff_prompt : Option String
  pub vision_handoff_cache_enabled : Option Bool
  pub keys : Option (List ConfigKey)

abbrev pub or_old {ℓ} : {A : Type ℓ} → Option A → A → A
or_old none old = old
or_old (some v) old = v

abbrev pub is_some {ℓ} : {A : Type ℓ} → Option A → Bool
is_some none = false
is_some (some v) = true

abbrev pub wallpaper_of : String → WallpaperSource
wallpaper_of v =
    if str_eq v "none" then none_source else if str_eq v "wallhaven" then wallhaven else bing

unfoldable pub apply_update : ConfigUpdate → Config → Config
apply_update u cfg = record cfg {
  api_key = or_old u.api_key cfg.api_key;
  api_keys = or_old u.api_keys cfg.api_keys;
  listen_addr = or_old u.listen_addr cfg.listen_addr;
  enabled_models = or_old u.enabled_models cfg.enabled_models;
  model_display_names = or_old u.model_display_names cfg.model_display_names;
  wallpaper_source = or_old (Option.map wallpaper_of u.wallpaper_source) cfg.wallpaper_source;
  override_concurrency = or_old u.override_concurrency cfg.override_concurrency;
  max_images = or_old u.max_images cfg.max_images;
  disabled_models = or_old u.disabled_models cfg.disabled_models;
  vision_handoff_enabled = or_old u.vision_handoff_enabled cfg.vision_handoff_enabled;
  vision_handoff_model = or_old u.vision_handoff_model cfg.vision_handoff_model;
  vision_handoff_prompt = or_old u.vision_handoff_prompt cfg.vision_handoff_prompt;
  vision_handoff_cache_enabled =
      or_old u.vision_handoff_cache_enabled cfg.vision_handoff_cache_enabled;
  keys = or_old u.keys cfg.keys;
}

-- `restart_required`.
unfoldable pub needs_restart : ConfigUpdate → Config → Bool
needs_restart u cfg = elim u.listen_addr [ none ↦ false | some v ↦ not (str_eq v cfg.listen_addr) ]

-- `eff.hard_cap.or(eff.limit)`.
abbrev pub limit_of : Effective → Option ℕ
limit_of eff = elim eff.hard_cap [ some c ↦ some c | none ↦ eff.limit ]

-- `unauthorized` is status 401; the others are 200 with the body named.
pub data Answer : Type 0 where
  unauthorized : Answer
  success : Answer
  saved : Config → Bool → Answer

-- `ct_eq` is the comparison of keys, as in Access.
module _ (semaphore : Semaphore) (lru : Lru Digest CacheEntry)
    (ct_eq : String → String → Bool) where
  -- The parts of the shared state that these handlers touch; `pinged` tells the saver to write.
  pub record Shared : Type 0 where
    pub config : Config
    pub pool : PoolInner
    pub gate : Gate semaphore
    pub handoff_cache : HandoffCache.State lru
    pub caches : Caches
    pub pinged : Bool

  -- Both handlers as a call that nothing else comes between; Sync has the moves of the updates one by one.
  unfoldable pub post_keys : Headers → KeyAction → Shared → Answer × Shared
  unfolding check_auth apply_action
  post_keys headers action st =
      if not (check_auth ct_eq st.config headers)
      then (unauthorized, st)
      else (let new_cfg = apply_action action st.config in
          (
            success,
            record st {
              config = new_cfg;
              pool = rebuild (map from_config new_cfg.keys) st.pool;
              pinged = true;
            },
          ))

  abbrev pub reconciled : ConfigUpdate → Config → Shared → Gate semaphore
  reconciled u cfg st =
      if is_some u.override_concurrency
      then reconcile semaphore
          (limit_of (get_effective_concurrency cfg.override_concurrency st.caches)) st.gate
      else st.gate

  abbrev pub resized : ConfigUpdate → Config → Shared → HandoffCache.State lru
  resized u cfg st =
      if is_some u.vision_handoff_cache_enabled || is_some u.vision_handoff_prompt
      then HandoffCache.resize lru 50 (handoff_cache_ttl_duration cfg) st.handoff_cache
      else st.handoff_cache

  unfoldable pub post_config : Headers → ConfigUpdate → Shared → Answer × Shared
  unfolding check_auth apply_update needs_restart
  post_config headers u st =
      if not (check_auth ct_eq st.config headers)
      then (unauthorized, st)
      else (let new_cfg = apply_update u st.config in
          (
            saved new_cfg (needs_restart u st.config),
            record st {
              config = new_cfg;
              gate = reconciled u new_cfg st;
              handoff_cache = resized u new_cfg st;
              pool =
                  if is_some u.keys
                  then rebuild (map from_config new_cfg.keys) st.pool
                  else st.pool;
              pinged = true;
            },
          ))
