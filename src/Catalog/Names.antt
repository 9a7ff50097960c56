-- ===== src/Catalog/Names.antt =====
-- The names of models in requests, and the models they stand for.
use Prim.Native.String.append
use mybro.Catalog.{Catalog, has, resolve_model_id}
use mybro.Config.{Config}
use mybro.Prelude.{◌≡◌, ◌⊎◌, String, true, false, some, []}

-- A model that is offered: listed by the upstream and not disabled, or, where the upstream lists none,
-- enabled.
abbrev pub Offered : Catalog → Config → String → Type 0
Offered cat cfg id =
    ((has cat.ordered_ids id ≡ true) × (has cfg.disabled_models id ≡ false))
    ⊎ ((cat.ordered_ids ≡ []) × (has cfg.enabled_models id ≡ true))

module _ (cat : Catalog) (cfg : Config) (requested : String) where
  abbrev resolve : String → String
  resolve r = resolve_model_id (some cat) r cfg
