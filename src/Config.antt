-- ===== src/Config.antt =====
-- src/config.rs: the configuration, its defaults, durations and masking.
pub mod Mask
pub mod Duration
pub mod Parsing
mod Examples
use Prim.Native.Char.{Char, code}
use mybro.Prelude.{
  ℕ, ◌+◌, ◌*◌, ◌^◌, String, Bool, true, false, not, ◌||◌, Option, none, some, List, [], ◌∷◌, map,
  trim, str_eq, ◌==◌, if◌then◌else◌,
}
use Duration.{parse_below, parse_duration}

pub record ConfigKey : Type 0 where
  pub name : String
  pub key : String
  pub session : String

-- `none_source` is the source's `None`.
pub data WallpaperSource : Type 0 where
  none_source bing wallhaven : WallpaperSource

pub record Config : Type 0 where
  pub listen_addr : String
  pub upstream_base_url : String
  pub request_timeout : String
  pub websearch_provider : String
  pub api_key : String
  pub api_keys : List String
  pub keys : List ConfigKey
  pub enabled_models : List String
  pub model_display_names : List (String × String)
  pub override_concurrency : ℕ
  pub max_images : ℕ
  pub disabled_models : List String
  pub vision_handoff_enabled : Bool
  pub vision_handoff_model : String
  pub vision_handoff_prompt : String
  pub vision_handoff_cache_enabled : Bool
  pub vision_handoff_cache_ttl : String
  pub wallpaper_source : WallpaperSource

abbrev pub default_config : Config
default_config = record {
  listen_addr = "127.0.0.1:8084";
  upstream_base_url = "https://api.code.umans.ai/v1";
  request_timeout = "15m";
  websearch_provider = "none";
  api_key = "";
  api_keys = [];
  keys = [];
  enabled_models = [];
  model_display_names = [];
  override_concurrency = 0;
  max_images = 9;
  disabled_models = [];
  vision_handoff_enabled = false;
  vision_handoff_model = "umans-coder";
  vision_handoff_prompt = "";
  vision_handoff_cache_enabled = false;
  vision_handoff_cache_ttl = "24h";
  wallpaper_source = bing;
}

-- `split(',')`: the piece up to the first comma, and the others.
unfoldable pub split_comma : String → String × List String
split_comma String.[] = (String.[], [])
split_comma (String.◌∷◌ c s) =
    if code c == 44
    then (String.[], (split_comma s).0 ∷ (split_comma s).1)
    else (String.◌∷◌ c (split_comma s).0, (split_comma s).1)

abbrev pub or_old {ℓ} : {A : Type ℓ} → Option A → A → A
or_old none old = old
or_old (some v) old = v

-- A flag: anything but these three texts sets it.
abbrev pub flag : String → Bool
flag v = not (str_eq v "false" || str_eq v "0" || str_eq v "")

abbrev pub or_flag : Option String → Bool → Bool
or_flag none old = old
or_flag (some v) old = flag v

-- A number that does not parse leaves the old one.
abbrev pub or_number : ℕ → Option String → ℕ → ℕ
or_number bound none old = old
or_number bound (some v) old = or_old (parse_below bound v) old

abbrev pub or_list : Option String → List String → List String
or_list none old = old
or_list (some v) old = map trim ((split_comma v).0 ∷ (split_comma v).1)

-- `env` is `std::env::var`.
unfoldable pub apply_env_overrides : (String → Option String) → Config → Config
unfolding parse_below split_comma
apply_env_overrides env c = record c {
  listen_addr = or_old (env "LISTEN_ADDR") c.listen_addr;
  upstream_base_url = or_old (env "UPSTREAM_BASE_URL") c.upstream_base_url;
  request_timeout = or_old (env "REQUEST_TIMEOUT") c.request_timeout;
  websearch_provider = or_old (env "WEBSEARCH_PROVIDER") c.websearch_provider;
  api_key = or_old (env "UMANS_API_KEY") c.api_key;
  api_keys = or_list (env "API_KEYS") c.api_keys;
  override_concurrency = or_number (2 ^ 32) (env "OVERRIDE_CONCURRENCY") c.override_concurrency;
  max_images = or_number (2 ^ 64) (env "MAX_IMAGES") c.max_images;
  vision_handoff_enabled = or_flag (env "VISION_HANDOFF_ENABLED") c.vision_handoff_enabled;
  vision_handoff_cache_enabled =
      or_flag (env "VISION_HANDOFF_CACHE_ENABLED") c.vision_handoff_cache_enabled;
  vision_handoff_cache_ttl = or_old (env "VISION_HANDOFF_CACHE_TTL") c.vision_handoff_cache_ttl;
}

-- `false` ends the process.
unfoldable pub validate : Config → Bool
unfolding parse_duration
validate c = not (parse_duration c.request_timeout == 0)

unfoldable pub request_timeout_duration : Config → ℕ
unfolding parse_duration
request_timeout_duration c =
    let d = parse_duration c.request_timeout in if d == 0 then 900 * 1_000_000_000 else d

unfoldable pub handoff_cache_ttl_duration : Config → ℕ
unfolding parse_duration
handoff_cache_ttl_duration c =
    let d = parse_duration c.vision_handoff_cache_ttl in
    if d == 0 then 86_400 * 1_000_000_000 else d

-- `file` is what reading and parsing the file comes to: `none` for no file or one that does not parse.
-- The result is `none` where the process ends.
unfoldable pub load : Option Config → (String → Option String) → Option Config
unfolding apply_env_overrides validate
load file env =
    let cfg = apply_env_overrides env (or_old file default_config) in
    if validate cfg then some cfg else none
