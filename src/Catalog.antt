-- ===== src/Catalog.antt =====
-- src/catalog.rs: the models of the upstream, which of them are offered, and the names that requests use.
-- A HashMap is a list of pairs; `to_lowercase` is that of the standard library.
pub mod Names
mod Examples
use Prim.Native.Char.{code}
use mybro.Concurrency.{Fetched, failed, answer}
use mybro.Config.{Config}
use mybro.Json.{
  Value, Fields, field, end, object, string, number, pos_int, get_then, as_bool, as_array, as_str,
  insert,
}
use mybro.Prelude.{
  text_le, ℕ, ◌-◌, ◌*◌, String, str_eq, str_append, is_empty, starts_with, slice_from, Bool, true,
  false, not, ◌&&◌, ◌||◌, Option, none, some, List, [], ◌∷◌, map, filter, ltb, leb, ◌==◌,
  if◌then◌else◌,
}

pub record Catalog : Type 0 where
  pub info : List (String × Value)
  pub display : List (String × String)
  pub ordered_ids : List String

abbrev pub find {ℓ} : {A : Type ℓ} → String → List (String × A) → Option A
find k [] = none
find k ((j, a) ∷ kvs) = if str_eq j k then some a else find k kvs

abbrev pub has : List String → String → Bool
has [] k = false
has (j ∷ js) k = str_eq j k || has js k

-- A stable sort by a test of order.
unfoldable pub insert_by {ℓ} : {A : Type ℓ} → (A → A → Bool) → A → List A → List A
insert_by le x [] = x ∷ []
insert_by le x (y ∷ ys) = let rest = insert_by le x ys in if le x y then x ∷ y ∷ ys else y ∷ rest

unfoldable pub sort_by {ℓ} : {A : Type ℓ} → (A → A → Bool) → List A → List A
sort_by le [] = []
sort_by le (x ∷ xs) = insert_by le x (sort_by le xs)

abbrev pub or_empty : Option String → String
or_empty none = ""
or_empty (some s) = s

module _ (to_lowercase : String → String) where
  -- `none` is the panic of the slice.
  unfoldable pub display_name : Value → Option String
  unfolding starts_with slice_from
  display_name info_obj =
      let shown = or_empty (get_then "display_name" as_str info_obj) in
      if starts_with "umans " (to_lowercase shown) then slice_from 6 shown else some shown

  unfoldable pub display_names : List (String × Value) → Option (List (String × String))
  display_names [] = some []
  display_names ((id, v) ∷ info) =
      let rest = display_names info in
      elim (display_name v) [
        | none ↦ none
        | some shown ↦ elim rest [ none ↦ none | some names ↦ some ((id, shown) ∷ names) ]
      ]

  abbrev pub lower_of : List (String × String) → String → String
  lower_of display id = elim (find id display) [ none ↦ "" | some s ↦ to_lowercase s ]

  -- By the lowercase name, then the id.
  unfoldable pub before : List (String × String) → String → String → Bool
  unfolding text_le
  before display a b =
      let da = lower_of display a in
      let db = lower_of display b in if str_eq da db then text_le a b else text_le da db

  unfoldable pub from_info : List (String × Value) → Option Catalog
  unfolding sort_by
  from_info info = elim (display_names info) [
    | none ↦ none
    | some display ↦ some (record {
      info = info;
      display = display;
      ordered_ids = sort_by (before display) (map (λ kv. kv.0) info);
    })
  ]

unfoldable pub effective_models : Catalog → Config → List String
effective_models cat cfg = elim cat.ordered_ids [
  | [] ↦ cfg.enabled_models
  | id ∷ ids ↦ filter (λ i. not (has cfg.disabled_models i)) (id ∷ ids)
]

unfoldable pub all_catalog_models : Catalog → Config → List String
all_catalog_models cat cfg = elim cat.ordered_ids [ [] ↦ cfg.enabled_models | id ∷ ids ↦ id ∷ ids ]

-- The two statics: the snapshot, and when it was fetched.
pub record Snapshot : Type 0 where
  pub catalog : Option Catalog
  pub fetched_at : Option ℕ

unfoldable pub set_catalog : Catalog → Snapshot → Snapshot
set_catalog cat s = record s { catalog = some cat }

abbrev pub catalog_cache_ttl : ℕ
catalog_cache_ttl = 300 * 1_000_000_000

unfoldable pub is_fresh : ℕ → Snapshot → Bool
is_fresh now s = elim s.fetched_at [ none ↦ false | some t ↦ ltb (now - t) catalog_cache_ttl ]

-- `from_slice` is serde_json's, for a map.
module _ (from_slice : List ℕ → Option (List (String × Value)))
    (to_lowercase : String → String) where
  unfoldable pub fetched : Fetched → Option (List (String × Value))
  fetched failed = none
  fetched (answer status none) = none
  fetched (answer status (some body)) =
      if leb 200 status && ltb status 300 then from_slice body else none

  -- `fetch` is what the call of the upstream comes to, and when. `none` is the panic of `from_info`.
  unfoldable pub ensure_catalog_fresh : ℕ → Fetched × ℕ → Snapshot → Option Snapshot
  unfolding set_catalog is_fresh from_info
  ensure_catalog_fresh now fetch s = if is_fresh now s then some s else elim (fetched fetch.0) [
    | none ↦ some s
    | some info ↦ elim (from_info to_lowercase info) [
      | none ↦ none
      | some cat ↦ some (record (set_catalog cat s) { fetched_at = some fetch.1 })
    ]
  ]

abbrev pub flag_at : String → Value → Bool
flag_at k v = elim (get_then k as_bool v) [ none ↦ false | some b ↦ b ]

abbrev pub some_items : Option (List Value) → Bool
some_items none = false
some_items (some []) = false
some_items (some (v ∷ vs)) = true

unfoldable pub reasoning_mode : Value → Bool
reasoning_mode caps = elim (get_then "reasoning" some caps) [
  | none ↦ false
  | some r ↦ flag_at "supported" r || some_items (get_then "levels" as_array r)
]

abbrev pub reasoning_level_budgets : List (String × ℕ)
reasoning_level_budgets =
    ("low", 8_000) ∷ ("medium", 16_000) ∷ ("high", 16_000) ∷ ("max", 32_000) ∷ []

abbrev pub thinking_of : ℕ → Value
thinking_of budget = object (
    field "thinking"
      (object
        (field "type" (string "enabled") (field "budget_tokens" (number (pos_int budget)) end)))
      end)

unfoldable pub add_variant : Value → Fields → Fields
add_variant level variants =
    let level_str = or_empty (as_str level) in
    if str_eq level_str "none" || is_empty level_str
    then variants
    else elim (find level_str reasoning_level_budgets) [
      | none ↦ variants
      | some budget ↦ insert level_str (thinking_of budget) variants
    ]

unfoldable pub add_variants : List Value → Fields → Fields
add_variants [] variants = variants
add_variants (level ∷ levels) variants = add_variants levels (add_variant level variants)

abbrev pub unless_empty : Fields → Option Fields
unless_empty end = none
unless_empty (field k v fs) = some (field k v fs)

unfoldable pub reasoning_variants : Value → Option Fields
reasoning_variants caps = elim (get_then "reasoning" some caps) [
  | none ↦ none
  | some r ↦
      if not (flag_at "supported" r) || not (flag_at "can_disable" r)
      then none
      else elim (get_then "levels" as_array r) [
        | none ↦ none
        | some levels ↦ unless_empty (add_variants levels end)
      ]
]

-- The argument is the snapshot of the catalog.
unfoldable pub resolve_model_id : Option Catalog → String → Config → String
unfolding starts_with effective_models
resolve_model_id none requested cfg = requested
resolve_model_id (some cat) requested cfg =
    let prefixed = str_append "umans-" requested in
    if starts_with "umans-" requested
    then requested
    else if has (effective_models cat cfg) prefixed
    then prefixed
    else if has (effective_models cat cfg) requested
    then requested
    else requested

unfoldable pub needs_vision_handoff : Option Catalog → String → Config → Bool
needs_vision_handoff none resolved cfg = false
needs_vision_handoff (some cat) resolved cfg =
    if not cfg.vision_handoff_enabled then false else elim (find resolved cat.info) [
      | none ↦ false
      | some m ↦ elim (get_then "capabilities" (get_then "supports_vision" as_str) m) [
        | none ↦ false
        | some s ↦ str_eq s "via-handoff"
      ]
    ]
