-- ===== src/Endpoints/Models.antt =====
-- src/routes/models_api.rs: the models that are offered, with prices, and the whole catalog.
pub mod Listed
use mybro.Access.{Headers, active_key}
use mybro.Catalog.{
  Catalog, find, effective_models, all_catalog_models, reasoning_mode, reasoning_variants,
}
use mybro.Concurrency.{Fetched, answer, failed}
use mybro.Config.{Config}
use mybro.Endpoints.{Reply, json, panicked, guarded}
use mybro.Json.{
  Value, Fields, Items, Number, null, bool, number, pos_int, string, array, object, nil, cons, end,
  field, get, get_then, insert, lookup, as_u64, as_str, as_bool, as_array, from_list,
}
use mybro.KeyPool.{PoolInner}
use mybro.Payload.Prompt.{index_put}
use mybro.Prelude.{
  ℕ, String, str_eq, strip_prefix, Bool, true, false, ◌&&◌, Option, none, some, List, [], ◌∷◌, ◌++◌,
  map, ltb, leb, if◌then◌else◌,
}

abbrev pub or_else {ℓ} : {A : Type ℓ} → Option A → Option A → Option A
or_else (some a) o = some a
or_else none o = o

-- `catalog().unwrap_or_else(Catalog::empty)`.
abbrev pub or_empty_catalog : Option Catalog → Catalog
or_empty_catalog (some cat) = cat
or_empty_catalog none = record { info = []; display = []; ordered_ids = [] }

abbrev pub or_empty_object : Option Value → Value
or_empty_object (some v) = v
or_empty_object none = object end

abbrev pub shown_name : Catalog → String → String
shown_name cat id = elim (find id cat.display) [
  | some name ↦ name
  | none ↦ elim (strip_prefix "umans-" id) [ some rest ↦ rest | none ↦ id ]
]

abbrev pub info_of : Catalog → String → Value
info_of cat id = or_empty_object (find id cat.info)

abbrev pub caps_of : Value → Value
caps_of info = or_empty_object (get "capabilities" info)

abbrev pub positive : Option ℕ → Option ℕ
positive none = none
positive (some n) = if ltb 0 n then some n else none

abbrev pub context_window : Value → Option ℕ
context_window info = positive (get_then "context_window" as_u64 (caps_of info))

abbrev pub max_output_tokens : Value → Option ℕ
max_output_tokens info =
    or_else (get_then "recommended_max_tokens" as_u64 info)
      (or_else (get_then "max_completion_tokens" as_u64 info) (context_window info))

-- The two limits, of which the second is there only with the first.
unfoldable pub with_limits : Value → Fields → Fields
with_limits info fs = elim (context_window info) [
  | none ↦ fs
  | some cw ↦
      let sized = insert "context_length" (number (pos_int cw)) fs in
      elim (max_output_tokens info) [
        | none ↦ sized
        | some most ↦ insert "max_output_tokens" (number (pos_int most)) sized
      ]
]

-- A model of the list.
unfoldable pub model_entry : ℕ → Catalog → String → Fields
unfolding with_limits strip_prefix
model_entry start_unix cat id = with_limits (info_of cat id) (
    field "id" (string id) (
      field "object" (string "model") (
        field "created" (number (pos_int start_unix)) (
          field "owned_by" (string "umans") (
            field "root" (string id) (
              field "permission" (array nil)
                (field "display_name" (string (shown_name cat id)) end)))))))

-- `model["pricing"][k] = …`: what is missing on the way is made. `none` is the panic.
unfoldable pub put_price : String → Number → Fields → Option Fields
unfolding index_put
put_price k x fs =
    elim (index_put k (number x) (elim (lookup "pricing" fs) [ none ↦ null | some p ↦ p ])) [
      | none ↦ none
      | some p ↦ some (insert "pricing" p fs)
    ]

-- `as_f64` is there for every number.
abbrev pub as_number : Value → Option Number
as_number (number n) = some n
as_number null = none
as_number (bool b) = none
as_number (string s) = none
as_number (array vs) = none
as_number (object fs) = none

-- A pair of the pricing map, for an element of the upstream's list that has both.
abbrev pub price_pair : Value → List (String × Value)
price_pair m = elim (get_then "id" as_str m) [
  | none ↦ []
  | some id ↦ elim (get "pricing" m) [ none ↦ [] | some p ↦ (id, p) ∷ [] ]
]

-- The map that the pairs are collected into: a later pair takes the place of an earlier one.
unfoldable pub pricing_map : List Value → List (String × Value)
pricing_map [] = []
pricing_map (m ∷ ms) = pricing_map ms ++ price_pair m

abbrev pub listing : List Value → Reply
listing ms =
    json (object (field "object" (string "list") (field "data" (array (from_list ms)) end)))

-- The upstream's reply and its body: `millionth` is `x / 1_000_000.0` on `f64`, `from_slice` serde_json's.
module _ (ct_eq : String → String → Bool) (from_slice : List ℕ → Option Value)
    (millionth : Number → Number) where
  unfoldable pub add_price : String → String → Value → Fields → Option Fields
  unfolding put_price
  add_price from to pricing fs = elim (get_then from as_number pricing) [
    | none ↦ some fs
    | some n ↦ put_price to (millionth n) fs
  ]

  unfoldable pub priced : List (String × Value) → String → Fields → Option Fields
  unfolding add_price
  priced prices id fs = elim (find id prices) [
    | none ↦ some fs
    | some pricing ↦ elim (add_price "input" "prompt" pricing fs) [
      | none ↦ none
      | some fs' ↦ add_price "output" "completion" pricing fs'
    ]
  ]

  unfoldable pub priced_models :
      List (String × Value) → ℕ → Catalog → List String → Option (List Value)
  unfolding priced model_entry
  priced_models prices start_unix cat [] = some []
  priced_models prices start_unix cat (id ∷ ids) =
      elim (priced prices id (model_entry start_unix cat id)) [
        | none ↦ none
        | some fs ↦ elim (priced_models prices start_unix cat ids) [
          | none ↦ none
          | some ms ↦ some (object fs ∷ ms)
        ]
      ]

  -- The list `data` of the upstream's answer, where there is one.
  unfoldable pub priced_data : Fetched → Option (List Value)
  priced_data failed = none
  priced_data (answer status none) = none
  priced_data (answer status (some body)) =
      if leb 200 status && ltb status 300
      then elim (from_slice body) [ none ↦ none | some v ↦ get_then "data" as_array v ]
      else none

  -- `fetch` is what `get_models_pricing` comes to, if there is a key to ask with.
  unfoldable pub v1_models : ℕ → ℕ → Config → Option Catalog → PoolInner → Fetched → Headers → Reply
  unfolding priced_models priced_data pricing_map effective_models
  v1_models now start_unix cfg catalog pool fetch h =
      let cat = or_empty_catalog catalog in
      let ids = effective_models cat cfg in
      let bare = listing (map (λ id. object (model_entry start_unix cat id)) ids) in
      guarded ct_eq cfg h (elim (active_key now cfg pool) [
        | none ↦ panicked
        | some none ↦ bare
        | some (some key) ↦ elim (priced_data fetch) [
          | none ↦ bare
          | some rows ↦ elim (priced_models (pricing_map rows) start_unix cat ids) [
            | none ↦ panicked
            | some ms ↦ listing ms
          ]
        ]
      ])

-- A map as an object.
unfoldable pub to_fields : List (String × Value) → Fields
to_fields [] = end
to_fields ((k, v) ∷ kvs) = field k v (to_fields kvs)

abbrev pub strings : List String → Value
strings ss = array (from_list (map string ss))

abbrev pub flag_or_false : Option Bool → Bool
flag_or_false none = false
flag_or_false (some b) = b

abbrev pub text_or : String → Option String → String
text_or s none = s
text_or s (some t) = t

abbrev pub number_or_zero : Option ℕ → ℕ
number_or_zero none = 0
number_or_zero (some n) = n

-- A model of the catalog, with what it can do.
unfoldable pub catalog_entry : Catalog → String → Fields
unfolding reasoning_mode reasoning_variants strip_prefix
catalog_entry cat id =
    let caps = caps_of (info_of cat id) in
    let model = field "id" (string id) (
      field "displayName" (string (shown_name cat id)) (
        field "reasoning" (bool (reasoning_mode caps)) (
          field "supportsTools" (bool (flag_or_false (get_then "supports_tools" as_bool caps))) (
            field "supportsVision"
              (string (text_or "false" (get_then "supports_vision" as_str caps)))
              (field "contextWindow"
                (number (pos_int (number_or_zero (get_then "context_window" as_u64 caps))))
                end))))) in
    elim (reasoning_variants caps) [ none ↦ model | some v ↦ insert "variants" (object v) model ]

module _ (ct_eq : String → String → Bool) where
  unfoldable pub v1_models_info : Config → Option Catalog → Headers → Reply
  unfolding to_fields
  v1_models_info cfg catalog h =
      guarded ct_eq cfg h (json (object (to_fields (or_empty_catalog catalog).info)))

  unfoldable pub get_models : Config → Option Catalog → Headers → Reply
  unfolding catalog_entry all_catalog_models to_fields
  get_models cfg catalog h =
      let cat = or_empty_catalog catalog in
      let models = map (λ id. object (catalog_entry cat id)) (all_catalog_models cat cfg) in
      guarded ct_eq cfg h (
        json (
          object (
            field "models" (array (from_list models)) (
              field "disabled" (strings cfg.disabled_models) (
                field "displayNames"
                  (object (to_fields (map (λ kv. (kv.0, string kv.1)) cat.display))) end)))))
