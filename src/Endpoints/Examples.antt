-- ===== src/Endpoints/Examples.antt =====
-- The endpoints at concrete inputs: tests, and their theorems applied.
use mybro.Access.{Headers, check_auth, grants, active_key}
use mybro.Catalog.{Catalog, effective_models}
use mybro.Concurrency.{answer, failed}
use mybro.Config.{Config, default_config}
use mybro.Endpoints.{json}
use mybro.Endpoints.Models.{listing, v1_models, model_entry}
use mybro.Endpoints.Models.Listed.{without_prices, v1_models-listed}
use mybro.Endpoints.Stats.{number_param, in_ms}
use mybro.Endpoints.Status.{port}
use mybro.Endpoints.Usage.{history_query, get_usage_history}
use mybro.Endpoints.Usage.History.{get_usage_history-again}
use mybro.Json.{
  Value, Number, number, pos_int, float, string, array, object, cons, nil, field, end, get, lookup,
  insert, as_str, as_array, to_list,
}
use mybro.KeyPool.{PoolInner, new}
use mybro.Prelude.{ℕ, ◌≡◌, refl, String, str_eq, Option, inr, none, some, List, [], ◌∷◌, map, arith}

abbrev config : Config
config = record default_config { api_key = "sk-own" }

abbrev open_door : Headers
open_door = record { x_api_key = none; authorization = none }

abbrev pool : PoolInner
pool = new []

abbrev catalog : Catalog
catalog = record {
  info =
      (
        "umans-coder",
        object (
            field "capabilities" (object (field "context_window" (number (pos_int 128_000)) end))
              end),
      )
      ∷ [];
  display = [];
  ordered_ids = "umans-coder" ∷ "umans-flash" ∷ [];
}

-- What the upstream tells of prices, and the number that stands for a millionth of one.
abbrev prices : Value
prices = object (
    field "data"
      (array (
        cons
          (object (
            field "id" (string "umans-flash")
              (field "pricing" (object (field "input" (number (pos_int 3)) end)) end)))
          nil))
      end)

abbrev parse : List ℕ → Option Value
parse bytes = some prices

abbrev millionth : Number → Number
millionth n = float 7

abbrev entry : String → Value
entry id = object (model_entry 5 catalog id)

v1_models-listed_example :
    (ms : List Value) × (v1_models str_eq parse millionth 0 5 config
        (some catalog)
        pool
        (answer 200 (some []))
        open_door
      ≡ listing ms)
    × (map without_prices ms ≡ entry "umans-coder" ∷ entry "umans-flash" ∷ [])
unfolding check_auth grants active_key effective_models
v1_models-listed_example =
    v1_models-listed str_eq parse millionth 0 5 config (some catalog) pool (answer 200 (some []))
      open_door (some "sk-own") refl refl

-- The second model has the upstream's price, the first none.
priced_list :
    v1_models str_eq parse millionth 0 5 config (some catalog) pool (answer 200 (some [])) open_door
    ≡ listing (
        entry "umans-coder"
        ∷ object (
            insert "pricing"
              (object (field "prompt" (number (float 7)) end))
              (model_entry 5 catalog "umans-flash"))
        ∷ [])
unfolding v1_models check_auth grants active_key get lookup as_str as_array to_list
priced_list = refl

-- A value that is not escaped brings a parameter of its own along.
smuggled : history_query (("from", "1&scope=all") ∷ []) ≡ "from=1&scope=all"
unfolding history_query
smuggled = refl

get_usage_history-again_example :
    let first =
      get_usage_history str_eq parse 0 config pool
        (answer 200 (some []), 3)
        []
        open_door
        (("from", "1") ∷ []) in
    (first.0 ≡ json prices)
    × (get_usage_history str_eq parse 9 config pool
          (failed, 9)
          first.1
          open_door
          (("from", "1") ∷ [])
        ≡ first)
unfolding history_query check_auth grants active_key
get_usage_history-again_example =
    get_usage_history-again str_eq parse 0 3 9 config config pool pool [] 200 (failed, 9) []
      open_door open_door (("from", "1") ∷ []) (("from", "1") ∷ []) "sk-own" "sk-own"
      (refl, refl, refl) (refl, refl, refl) refl (inr refl) refl refl (omega arith)

ports : port (record config { listen_addr = "[::1]:9000" }) ≡ 8084
unfolding port
ports = refl

-- A window of 2^61 seconds wraps to none.
wraps : in_ms (number_param "window" 300 (("window", "2305843009213693952") ∷ [])) ≡ 0
unfolding number_param
wraps = refl
