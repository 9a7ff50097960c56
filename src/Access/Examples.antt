-- ===== src/Access/Examples.antt =====
-- Authorization at concrete inputs: tests, and the theorem applied.
use mybro.Access.{
  Headers, provided, is_valid, grants, check_auth, first_key, active_key, auth_error_body,
  openai_error, anthropic_error, shows_key, anthropic_error_type,
}
use mybro.Access.Granted.{Listed, check_auth_iff}
use mybro.Config.{Config, default_config}
use mybro.Config.Mask.{mask_token}
use mybro.KeyPool.{new, from_config, state, entry_states, entry_state, entry_status}
use mybro.Prelude.{
  ◌≡◌, refl, ◌↔◌, ◌⊎◌, eq_iff, String, str_eq, true, false, none, some, [], ◌∷◌, strip_prefix,
  byte_len, slice_to, slice_from,
}

program : Unit {0}
unfolding provided is_valid grants check_auth first_key shows_key active_key auth_error_body
    openai_error anthropic_error anthropic_error_type strip_prefix state entry_states entry_state
    entry_status mask_token byte_len slice_to slice_from from_config new
program = tt

abbrev guarded : Config
guarded = record default_config { api_keys = "alpha" ∷ "beta" ∷ [] }

abbrev bearer : String → Headers
bearer key = record { x_api_key = none; authorization = some key }

abbrev second : Headers
second = bearer "Bearer beta"

let_in : check_auth str_eq guarded second ≡ true
unfolding check_auth grants is_valid provided strip_prefix
let_in = refl

-- Another scheme, and a wrong `x-api-key` beside a valid `Authorization`.
basic : check_auth str_eq guarded (bearer "Basic beta") ≡ false
unfolding check_auth grants is_valid provided strip_prefix
basic = refl

shadowed :
    check_auth str_eq guarded (record { x_api_key = some "x"; authorization = some "Bearer beta" })
    ≡ false
unfolding check_auth grants is_valid provided strip_prefix
shadowed = refl

-- A key of up to 14 bytes shows as three stars, so it is not found.
short_key :
    active_key 0 default_config
      (new (from_config (record { name = "k"; key = "sk-12345"; session = "" }) ∷ []))
    ≡ some none
unfolding active_key state entry_states entry_state mask_token byte_len shows_key from_config new
short_key = refl

check_auth_iff_example : (check_auth str_eq guarded second ≡ true) ↔ (
    (guarded.api_keys ≡ [])
    ⊎ ((key : String) × (provided second ≡ some key) × Listed key guarded.api_keys))
check_auth_iff_example = check_auth_iff str_eq eq_iff guarded second
