-- ===== src/Catalog/Examples.antt =====
-- The catalog at a concrete list of models: tests, and the theorem applied.
use mybro.Catalog.{
  Catalog, insert_by, sort_by, display_name, display_names, before, from_info, effective_models,
  resolve_model_id, needs_vision_handoff, add_variant, add_variants, reasoning_variants,
  thinking_of, reasoning_mode, ensure_catalog_fresh, is_fresh, set_catalog, fetched,
}
use mybro.Config.{Config, default_config}
use mybro.Json.{
  Value, object, array, string, bool, field, end, cons, nil, get, lookup, insert, as_str, as_bool,
  as_array, to_list,
}
use mybro.Prelude.{
  text_le, ◌≡◌, refl, true, none, some, [], ◌∷◌, String, List, Option, starts_with, strip_prefix,
  slice_from,
}

program : Unit {0}
unfolding text_le insert_by sort_by display_name display_names before from_info effective_models
    resolve_model_id needs_vision_handoff add_variant add_variants reasoning_variants reasoning_mode
    ensure_catalog_fresh is_fresh set_catalog fetched get lookup insert as_str as_bool as_array
    to_list starts_with strip_prefix slice_from
program = tt

abbrev named : String → Value
named name = object (field "display_name" (string name) end)

abbrev ids_of : Option Catalog → List String
ids_of o = elim o [ none ↦ [] | some c ↦ c.ordered_ids ]

-- By the name that is shown, without the prefix.
ordered :
    ids_of (
      from_info
        (λ s. s)
        (("b", named "zeta") ∷ ("a", named "umans alpha") ∷ ("c", named "mid") ∷ []))
    ≡ "a" ∷ "c" ∷ "b" ∷ []
unfolding text_le insert_by sort_by display_name display_names before from_info starts_with
    strip_prefix slice_from get lookup as_str
ordered = refl

abbrev caps : Value
caps = object (
    field "reasoning"
      (object (
        field "supported" (bool true) (
          field "can_disable" (bool true) (
            field "levels"
              (array (cons (string "none") (cons (string "low") (cons (string "odd") nil)))) end))))
      end)

variants : reasoning_variants caps ≡ some (field "low" (thinking_of 8_000) end)
unfolding reasoning_variants add_variants add_variant get lookup insert as_str as_bool as_array
    to_list
variants = refl

abbrev models : Catalog
models = record { info = []; display = []; ordered_ids = "umans-coder" ∷ "umans-flash" ∷ [] }

abbrev config : Config
config = record default_config { disabled_models = "umans-flash" ∷ [] }

disabled : resolve_model_id (some models) "flash" config ≡ "flash"
unfolding resolve_model_id effective_models starts_with strip_prefix
disabled = refl
