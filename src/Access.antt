-- ===== src/Access.antt =====
-- src/routes/mod.rs: who may call, the key of the program's own calls, and the error bodies.
pub mod Granted
mod Examples
use mybro.Config.{Config, ConfigKey}
use mybro.Json.{Value, string, object, field, end}
use mybro.KeyPool.{KeyState, PoolInner, state}
use mybro.Prelude.{
  ℕ, String, str_eq, strip_prefix, is_empty, Bool, true, false, not, ◌&&◌, ◌||◌, Option, none, some,
  List, [], ◌∷◌, ◌==◌, if◌then◌else◌,
}

pub data ApiFormat : Type 0 where
  open_ai anthropic : ApiFormat

-- The two headers, each where it is there and is a text.
pub record Headers : Type 0 where
  pub x_api_key : Option String
  pub authorization : Option String

unfoldable pub provided : Headers → Option String
unfolding strip_prefix
provided h = elim h.x_api_key [
  | some k ↦ some k
  | none ↦ elim h.authorization [ none ↦ none | some v ↦ strip_prefix "Bearer " v ]
]

-- `ct_eq` is the comparison of the crate subtle.
module _ (ct_eq : String → String → Bool) where
  unfoldable pub is_valid : String → List String → Bool
  is_valid key [] = false
  is_valid key (valid ∷ rest) = ct_eq key valid || is_valid key rest

  unfoldable pub grants : List String → Option String → Bool
  grants [] key = true
  grants (k ∷ ks) none = false
  grants (k ∷ ks) (some key) = is_valid key (k ∷ ks)

  -- `true` for `Ok(())`, `false` for 401.
  unfoldable pub check_auth : Config → Headers → Bool
  check_auth cfg h = grants cfg.api_keys (provided h)

-- The first key that is not empty, or the empty text.
unfoldable pub first_key : List ConfigKey → String
first_key [] = ""
first_key (k ∷ ks) = let rest = first_key ks in if is_empty k.key then rest else k.key

unfoldable pub shows_key : List KeyState → Bool
shows_key [] = false
shows_key (s ∷ rest) = (not (is_empty s.token) && not (str_eq s.token "***")) || shows_key rest

-- The outer `none` is the panic of the pool's state.
unfoldable pub active_key : ℕ → Config → PoolInner → Option (Option String)
active_key now cfg p =
    if not (is_empty cfg.api_key) then some (some cfg.api_key) else elim (state now p) [
      | none ↦ none
      | some states ↦ some (if shows_key states then some (first_key cfg.keys) else none)
    ]

abbrev pub pair : String → Value → String → Value → Value
pair a v b w = object (field a v (field b w end))

-- The body that goes with status 401.
unfoldable pub auth_error_body : ApiFormat → Value
auth_error_body open_ai = object (
    field "error"
      (object (
        field "message" (string "Invalid API key") (
          field "type" (string "authentication_error")
            (field "code" (string "invalid_api_key") end))))
      end)
auth_error_body anthropic =
    pair "type" (string "error") "error"
      (pair "type" (string "authentication_error") "message" (string "Invalid API key"))

unfoldable pub openai_error : ℕ → String → String → Value
openai_error status msg error_type =
    object (field "error" (pair "message" (string msg) "type" (string error_type)) end)

unfoldable pub anthropic_error_type : ℕ → String
anthropic_error_type status =
    if status == 400
    then "invalid_request_error"
    else if status == 401
    then "authentication_error"
    else if status == 403
    then "permission_error"
    else if status == 404
    then "not_found_error"
    else if status == 429
    then "rate_limit_error"
    else if status == 500
    then "api_error"
    else if status == 503
    then "overloaded_error"
    else "api_error"

unfoldable pub anthropic_error : ℕ → String → Value
anthropic_error status msg =
    pair "type" (string "error") "error"
      (pair "type" (string (anthropic_error_type status)) "message" (string msg))
