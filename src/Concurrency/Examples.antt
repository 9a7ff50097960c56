-- ===== src/Concurrency/Examples.antt =====
-- The upstream's usage at concrete inputs: its theorems applied.
use mybro.Concurrency.{
  Fetched, answer, usage_data, reading, fetch_usage, fetch_concurrency, store_usage,
  recompute_effective, last_concurrency_of, returns_at, Fetch, run, no_caches,
  get_effective_concurrency, compute_effective, compute_effective_from_conc,
}
use mybro.Json.{Value, object, field, end, number, pos_int, get, lookup, as_u64, as_str}
use mybro.Prelude.{ℕ, ◌≡◌, refl, true, false, Option, some, List, [], ◌∷◌, codes}

program : Unit {0}
unfolding fetch_usage fetch_concurrency reading usage_data store_usage last_concurrency_of
    recompute_effective returns_at compute_effective compute_effective_from_conc
    get_effective_concurrency run get lookup as_u64 as_str
program = tt

abbrev report : Value
report = object (
    field "limits"
      (object (
        field "concurrency"
          (object (field "limit" (number (pos_int 6)) (field "hard_cap" (number (pos_int 8)) end)))
          end))
      end)

abbrev parse : List ℕ → Option Value
parse bytes = some report

abbrev good : Fetched × ℕ
good = (answer 200 (some (codes "{}")), 5)

abbrev first_fetch : Fetch parse
first_fetch = record { of_concurrency = true; now = 3; fresh = false; fetch = good }

-- The upstream's limit of 6 stays in effect with an override of 2.
ignored : (get_effective_concurrency 2 (run parse (first_fetch ∷ []) no_caches)).limit ≡ some 6
unfolding fetch_usage fetch_concurrency reading usage_data store_usage last_concurrency_of
    recompute_effective compute_effective_from_conc get_effective_concurrency run get lookup as_u64
    as_str
ignored = refl
