-- ===== src/Endpoints/Models/Listed.antt =====
-- What the list of models holds, with prices and without.
use mybro.Access.{Headers, check_auth, active_key}
use mybro.Catalog.{Catalog, find, effective_models}
use mybro.Concurrency.{Fetched}
use mybro.Config.{Config}
use mybro.Endpoints.Models.{
  or_empty_catalog, context_window, max_output_tokens, info_of, shown_name, with_limits,
  model_entry, put_price, as_number, pricing_map, add_price, priced, priced_models, priced_data,
  listing, v1_models,
}
use mybro.Json.{
  Value, Fields, Number, null, bool, number, pos_int, string, array, object, nil, end, field,
  get_then, insert, remove, lookup,
}
use mybro.Json.Objects.{lookup-insert_self, lookup-insert_ne}
use mybro.KeyPool.{PoolInner}
use mybro.Payload.Prompt.{index_put}
use mybro.Prelude.{
  ℕ, ◌≡◌, refl, ap, ap₂, ◌∙◌, ◌⊎◌, inl, inr, String, str_eq, eq_iff, Bool, true, Option, none, some,
  List, [], ◌∷◌, map, Bool-cases, Option-cases, arith,
}

-- A model without its prices.
abbrev pub without_prices : Value → Value
without_prices (object fs) = object (remove "pricing" fs)
without_prices null = null
without_prices (bool b) = bool b
without_prices (number n) = number n
without_prices (string s) = string s
without_prices (array vs) = array vs

remove-insert : (k : String) (v : Value) (fs : Fields) → remove k (insert k v fs) ≡ remove k fs
unfolding remove insert
remove-insert k v end = let e = (eq_iff k k).1 refl in rw (remove, e) refl
remove-insert k v (field j w fs) = elim (Bool-cases (str_eq j k)) [
  | inl e ↦ let f = (eq_iff k k).1 refl in rw (remove, insert, e) (rw (remove, f) refl)
  | inr e ↦ rw (remove, insert, e) (rw (remove, e) (ap (field j w) (remove-insert k v fs)))
]

remove-none : (k : String) (fs : Fields) → lookup k fs ≡ none → remove k fs ≡ fs
unfolding remove lookup
remove-none k end h = refl
remove-none k (field j w fs) h = elim (Bool-cases (str_eq j k)) [
  | inl e ↦ absurd (let q : some w ≡ none = rw (lookup, e) at h in ground arith)
  | inr e ↦ rw (remove, e) (ap (field j w) (remove-none k fs (rw (lookup, e) at h)))
]

-- Prices can be written: there are none, or they are in an object.
abbrev Priceable : Fields → Type 0
Priceable fs =
    (lookup "pricing" fs ≡ none) ⊎ ((o : Fields) × (lookup "pricing" fs ≡ some (object o)))

-- A write that succeeds and changes nothing else.
abbrev Writes : Option Fields → Fields → Type 0
Writes o fs =
    (fs' : Fields) × (o ≡ some fs') × Priceable fs' × (remove "pricing" fs' ≡ remove "pricing" fs)

put_price-Writes :
    (k : String) (x : Number) (fs : Fields) → Priceable fs → Writes (put_price k x fs) fs
unfolding put_price index_put
put_price-Writes k x fs (inl e) =
    let p = object (field k (number x) end) in
    (
      insert "pricing" p fs,
      rw (put_price, e) refl,
      inr (field k (number x) end, lookup-insert_self "pricing" p fs),
      remove-insert "pricing" p fs,
    )
put_price-Writes k x fs (inr (o, e)) =
    let p = object (insert k (number x) o) in
    (
      insert "pricing" p fs,
      rw (put_price, e) refl,
      inr (insert k (number x) o, lookup-insert_self "pricing" p fs),
      remove-insert "pricing" p fs,
    )

with_limits-plain :
    (info : Value) (fs : Fields)
    → lookup "pricing" fs ≡ none
    → lookup "pricing" (with_limits info fs) ≡ none
unfolding with_limits
with_limits-plain info fs h = elim (Option-cases (context_window info)) [
  | inl e ↦ rw (with_limits, e) h
  | inr (cw, e) ↦
      let sized = insert "context_length" (number (pos_int cw)) fs in
      let plain = lookup-insert_ne "context_length" "pricing" (number (pos_int cw)) fs refl ∙ h in
      elim (Option-cases (max_output_tokens info)) [
        | inl f ↦ rw (with_limits, e, f) plain
        | inr (most, f) ↦
            rw (with_limits, e, f)
              (lookup-insert_ne "max_output_tokens" "pricing" (number (pos_int most)) sized refl
                ∙ plain)
      ]
]

model_entry-plain :
    (start_unix : ℕ) (cat : Catalog) (id : String)
    → lookup "pricing" (model_entry start_unix cat id) ≡ none
unfolding model_entry lookup
model_entry-plain start_unix cat id =
    with_limits-plain (info_of cat id)
      (field "id" (string id) (
        field "object" (string "model") (
          field "created" (number (pos_int start_unix)) (
            field "owned_by" (string "umans") (
              field "root" (string id) (
                field "permission" (array nil)
                  (field "display_name" (string (shown_name cat id)) end)))))))
      refl

module _ (ct_eq : String → String → Bool) (from_slice : List ℕ → Option Value)
    (millionth : Number → Number) where
  add_price-Writes :
      (from to : String) (pricing : Value) (fs : Fields)
      → Priceable fs
      → Writes (add_price ct_eq from_slice millionth from to pricing fs) fs
  unfolding add_price
  add_price-Writes from to pricing fs h = elim (Option-cases (get_then from as_number pricing)) [
    | inl e ↦ rw (add_price, e) (fs, refl, h, refl)
    | inr (n, e) ↦ rw (add_price, e) (put_price-Writes to (millionth n) fs h)
  ]

  priced-Writes :
      (prices : List (String × Value)) (id : String) (fs : Fields)
      → Priceable fs
      → Writes (priced ct_eq from_slice millionth prices id fs) fs
  unfolding priced
  priced-Writes prices id fs h = elim (Option-cases (find id prices)) [
    | inl e ↦ rw (priced, e) (fs, refl, h, refl)
    | inr (pricing, e) ↦
        let (fs', put, h', same) = add_price-Writes "input" "prompt" pricing fs h in
        let (fs'', put', h'', same') = add_price-Writes "output" "completion" pricing fs' h' in
        rw (priced, e, put) (fs'', put', h'', same' ∙ same)
  ]

  priced_models-some :
      (prices : List (String × Value)) (start_unix : ℕ) (cat : Catalog) (ids : List String)
      → (ms : List Value) × (priced_models ct_eq from_slice millionth prices start_unix cat ids
          ≡ some ms)
        × (map without_prices ms ≡ map (λ id. object (model_entry start_unix cat id)) ids)
  unfolding priced_models
  priced_models-some prices start_unix cat [] = ([], refl, refl)
  priced_models-some prices start_unix cat (id ∷ ids) =
      let entry = model_entry start_unix cat id in
      let plain = model_entry-plain start_unix cat id in
      let (fs, e, _, same) = priced-Writes prices id entry (inl plain) in
      let (ms, f, rest) = priced_models-some prices start_unix cat ids in
      (
        object fs ∷ ms,
        rw (priced_models, e, f) refl,
        ap₂ (◌∷◌) (ap object (same ∙ remove-none "pricing" entry plain)) rest,
      )

  plain_models :
      (start_unix : ℕ) (cat : Catalog) (ids : List String)
      → map without_prices (map (λ id. object (model_entry start_unix cat id)) ids)
        ≡ map (λ id. object (model_entry start_unix cat id)) ids
  plain_models start_unix cat [] = refl
  plain_models start_unix cat (id ∷ ids) =
      ap₂ (◌∷◌)
        (ap object (
          remove-none "pricing" (model_entry start_unix cat id)
            (model_entry-plain start_unix cat id)))
        (plain_models start_unix cat ids)

  -- To a caller that is let in, and with keys that can be shown: whatever the upstream answers when it is
  -- asked for prices, the reply lists the entries of exactly the models offered, in their order, and what a
  -- listed model has beyond its entry is prices.
  pub v1_models-listed :
      (now start_unix : ℕ) (cfg : Config) (catalog : Option Catalog) (pool : PoolInner)
      (fetch : Fetched) (h : Headers) (key : Option String)
      → check_auth ct_eq cfg h ≡ true
      → active_key now cfg pool ≡ some key
      → let cat = or_empty_catalog catalog in
        (ms : List Value) × (v1_models ct_eq from_slice millionth now start_unix cfg catalog pool
            fetch h
          ≡ listing ms)
        × (map without_prices ms
            ≡ map (λ id. object (model_entry start_unix cat id)) (effective_models cat cfg))
  unfolding v1_models
  v1_models-listed now start_unix cfg catalog pool fetch h none granted shown =
      let cat = or_empty_catalog catalog in
      let ids = effective_models cat cfg in
      (
        map (λ id. object (model_entry start_unix cat id)) ids,
        rw (v1_models, granted, shown) refl,
        plain_models start_unix cat ids,
      )
  v1_models-listed now start_unix cfg catalog pool fetch h (some key) granted shown =
      let cat = or_empty_catalog catalog in
      let ids = effective_models cat cfg in
      elim (Option-cases (priced_data ct_eq from_slice millionth fetch)) [
        | inl e ↦ (
          map (λ id. object (model_entry start_unix cat id)) ids,
          rw (v1_models, granted, shown, e) refl,
          plain_models start_unix cat ids,
        )
        | inr (rows, e) ↦
            let (ms, f, same) = priced_models-some (pricing_map rows) start_unix cat ids in
            (ms, rw (v1_models, granted, shown, e, f) refl, same)
      ]
