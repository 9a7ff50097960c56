-- ===== src/Database/Buckets/Failing.antt =====
-- When the query for buckets fails: its twelfth column, an average, is read as an integer.
use mybro.Database.{
  Row, Averages, selected, failed, turned_away, was_cached, ttfts, real, sum_cell, avg_cell,
  count_cell, max_cell, integer, as_i64, get_opt_u64, get_u64, get_opt_f64, ◌>>=◌,
}
use mybro.Database.Buckets.{
  C, slot, in_slot, add_slot, slots, bucket_cells, grouped, bucket_rows, read_bucket, read_buckets,
  query_buckets,
}
use mybro.Prelude.{
  ℕ, zero, suc, ◌-◌, ◌<◌, ◌≡◌, refl, subst, inl, inr, String, Bool, true, false, ◌||◌, Option, none,
  some, List, [], ◌∷◌, map, length, filter, filter-true, filter-false, ltb, ◌==◌, ==_iff,
  Bool-cases, Option-cases, arith,
}
use mybro.Stats.{StatsCollector, Floats, sum, filter_map, memory_window_ms}
use mybro.Stats.Percentiles.{memory_buckets, buckets}

-- A number is in a list.
abbrev has : ℕ → List ℕ → Bool
has t [] = false
has t (u ∷ us) = (t == u) || has t us

has-add_slot_self : (t : ℕ) (us : List ℕ) → has t (add_slot t us) ≡ true
unfolding add_slot
has-add_slot_self t [] = ground arith
has-add_slot_self t (u ∷ us) = ground (arith, has-add_slot_self t us)

has-add_slot : (t u : ℕ) (us : List ℕ) → has t us ≡ true → has t (add_slot u us) ≡ true
unfolding add_slot
has-add_slot t u [] h = ground arith
has-add_slot t u (v ∷ us) h = ground (arith, has-add_slot t u us)

ttfts-some : (r : Row) (rs : List Row) (n : ℕ) → r.ttft_ms ≡ some n → ttfts (r ∷ rs) ≡ n ∷ ttfts rs
unfolding filter_map
ttfts-some r rs n h = rw (filter_map, h) refl

ttfts-none : (r : Row) (rs : List Row) → r.ttft_ms ≡ none → ttfts (r ∷ rs) ≡ ttfts rs
unfolding filter_map
ttfts-none r rs h = rw (filter_map, h) refl

-- A time to the first byte is in a group that the query goes through.
in_some_slot :
    (bucket_ms : ℕ) (rs : List Row)
    → 0 < length (ttfts rs)
    → (t : ℕ) × (has t (slots bucket_ms rs) ≡ true) × (0 < length (ttfts (in_slot bucket_ms t rs)))
unfolding slots filter_map
in_some_slot b [] h = absurd (omega arith)
in_some_slot b (r ∷ rs) h = elim (Option-cases r.ttft_ms) [
  | inr (n, e) ↦
      let t = slot b r in
      let here : (t == t) ≡ true = (==_iff t t).1 refl in
      (
        t,
        has-add_slot_self t (slots b rs),
        rw (filter-true (λ q. slot b q == t) r rs here)
            (rw (ttfts-some r (in_slot b t rs) n e) (omega arith)),
      )
  | inl e ↦
      let (t, found, some_one) = in_some_slot b rs (rw (← ttfts-none r rs e) h) in
      (
        t,
        has-add_slot t (slot b r) (slots b rs) found,
        elim (Bool-cases (slot b r == t)) [
          | inl f ↦
              rw (filter-true (λ q. slot b q == t) r rs f)
                (rw (ttfts-none r (in_slot b t rs) e) some_one)
          | inr f ↦ rw (filter-false (λ q. slot b q == t) r rs f) some_one
        ],
      )
]

bind-none {ℓ κ} :
    {A : Type ℓ} {B : Type κ} (m : Option A) (f : A → Option B)
    → ((a : A) → f a ≡ none)
    → (m >>= f) ≡ none
bind-none none f h = refl
bind-none (some a) f h = h a

bind-bind-none {ℓ κ μ} :
    {A : Type ℓ} {B : Type κ} {D : Type μ} (m : Option A) (f : A → Option B) (g : B → Option D)
    → ((a : A) → (f a >>= g) ≡ none)
    → ((m >>= f) >>= g) ≡ none
bind-bind-none none f g h = refl
bind-bind-none (some a) f g h = h a

module _ (floats : Floats) (sqlite : Averages floats) where
  -- A row with a float in its twelfth column.
  read_bucket-real :
      (c0 c1 c2 c3 c4 c5 c6 c7 c8 c9 c10 : C floats sqlite) (x : floats.F)
      → read_bucket floats sqlite
          (c0 ∷ c1 ∷ c2 ∷ c3 ∷ c4 ∷ c5 ∷ c6 ∷ c7 ∷ c8 ∷ c9 ∷ c10 ∷ real x ∷ [])
        ≡ none
  unfolding read_bucket get_opt_u64
  read_bucket-real c0 c1 c2 c3 c4 c5 c6 c7 c8 c9 c10 x =
      bind-none (get_opt_u64 floats sqlite c6) _ λ a6.
        bind-none (get_opt_u64 floats sqlite c10) _ λ a10.
          bind-none (get_u64 floats sqlite c0) _ λ a0. bind-none (get_u64 floats sqlite c1) _ λ a1.
            bind-none (get_u64 floats sqlite c2) _ λ a2.
              bind-none (get_u64 floats sqlite c3) _ λ a3.
                bind-none (get_opt_f64 floats sqlite c4) _ λ a4.
                  bind-none (get_opt_u64 floats sqlite c5) _ λ a5.
                    bind-none (get_opt_f64 floats sqlite c9) _ λ a9.
                      bind-none (get_opt_u64 floats sqlite c7) _
                        λ a7. bind-none (get_opt_u64 floats sqlite c8) _ λ a8. refl

  avg_cell-real :
      (ns : List ℕ) → 0 < length ns → (x : floats.F) × (avg_cell floats sqlite ns ≡ real x)
  unfolding avg_cell
  avg_cell-real [] h = absurd (omega arith)
  avg_cell-real (n ∷ ns) h = (sqlite.avg (sum (n ∷ ns)) (length (n ∷ ns)), refl)

  bucket_cells-real :
      (ts : C floats sqlite) (rs : List Row)
      → 0 < length (ttfts rs)
      → (bucket_cells floats sqlite ts rs >>= read_bucket floats sqlite) ≡ none
  unfolding bucket_cells count_cell
  bucket_cells-real ts rs h =
      let (x, e) = avg_cell-real (ttfts rs) h in
      let sums = λ (f : Row → ℕ). sum_cell floats sqlite (map f rs) in
      rw e (
        bind-bind-none (sums (λ r. as_i64 (failed r))) _ (read_bucket floats sqlite) λ errors.
          bind-bind-none (sums (λ r. as_i64 (turned_away r))) _ (read_bucket floats sqlite)
            λ throttled.
              bind-bind-none (sums (λ r. r.tokens_in)) _ (read_bucket floats sqlite) λ tokens_in.
                bind-bind-none (sums (λ r. r.tokens_out)) _ (read_bucket floats sqlite)
                  λ tokens_out.
                    bind-bind-none (sums (λ r. as_i64 (was_cached r))) _ (read_bucket floats sqlite)
                      λ cached.
                        bind-bind-none (sums (λ r. r.cached_tokens)) _ (read_bucket floats sqlite)
                          λ cached_tokens.
                            bind-bind-none (sums (λ r. r.cache_creation_tokens)) _
                              (read_bucket floats sqlite)
                              λ created.
                                read_bucket-real ts (integer (length rs)) errors throttled
                                  (avg_cell floats sqlite (map (λ r. r.duration_ms) rs))
                                  (max_cell floats sqlite (map (λ r. r.duration_ms) rs)) tokens_in
                                  tokens_out cached cached_tokens created x)

  -- One bad row is enough, wherever it stands.
  read_buckets-head :
      (o : Option (List (C floats sqlite))) (rows : List (Option (List (C floats sqlite))))
      → (o >>= read_bucket floats sqlite) ≡ none
      → read_buckets floats sqlite (o ∷ rows) ≡ none
  unfolding read_buckets
  read_buckets-head none rows h = refl
  read_buckets-head (some row) rows h = rw (read_buckets, h) refl

  read_buckets-tail :
      (o : Option (List (C floats sqlite))) (rows : List (Option (List (C floats sqlite))))
      → read_buckets floats sqlite rows ≡ none
      → read_buckets floats sqlite (o ∷ rows) ≡ none
  unfolding read_buckets
  read_buckets-tail none rows h = refl
  read_buckets-tail (some row) rows h = elim (Option-cases (read_bucket floats sqlite row)) [
    | inl e ↦ rw (read_buckets, e) refl
    | inr (b, e) ↦ rw (read_buckets, e, h) refl
  ]

  grouped-real :
      (bucket_ms t : ℕ) (rs : List Row) (ts : List ℕ)
      → has t ts ≡ true
      → 0 < length (ttfts (in_slot bucket_ms t rs))
      → read_buckets floats sqlite (grouped floats sqlite bucket_ms rs ts) ≡ none
  unfolding grouped
  grouped-real b t rs [] found h = absurd (ground arith)
  grouped-real b t rs (u ∷ ts) found h =
      let head = bucket_cells floats sqlite (integer u) (in_slot b u rs) in
      let tail = grouped floats sqlite b rs ts in
      elim (Bool-cases (t == u)) [
        | inl e ↦
            let same : t ≡ u = (==_iff t u).0 e in
            read_buckets-head head tail (
              bucket_cells-real (integer u) (in_slot b u rs)
                (subst (λ v. 0 < length (ttfts (in_slot b v rs))) same h))
        | inr e ↦
            let later : has t ts ≡ true = ground arith in
            read_buckets-tail head tail (grouped-real b t rs ts later h)
      ]

  query-fails :
      (now_ms window_ms bucket_ms : ℕ) (model : Option String) (table : List Row)
      → 0 < bucket_ms
      → 0 < length (ttfts (filter (selected (now_ms - window_ms) model) table))
      → query_buckets floats sqlite now_ms window_ms bucket_ms model table ≡ none
  unfolding query_buckets bucket_rows
  query-fails now_ms window_ms zero model table pos h = absurd (omega arith)
  query-fails now_ms window_ms (suc n) model table pos h =
      let rs = filter (selected (now_ms - window_ms) model) table in
      let (t, found, some_one) = in_some_slot (suc n) rs h in
      grouped-real (suc n) t rs (slots (suc n) rs) found some_one

  -- With buckets of at least a millisecond, the query for buckets fails as soon as a row of the window and
  -- of the model has a time to the first byte, and the collector answers with the buckets of the records in
  -- memory, however long the window.
  pub query_buckets-fails :
      (capacity now_ms window_ms bucket_ms : ℕ) (model : Option String) (table : List Row)
      (c : StatsCollector)
      → 0 < bucket_ms
      → 0 < length (ttfts (filter (selected (now_ms - window_ms) model) table))
      → (query_buckets floats sqlite now_ms window_ms bucket_ms model table ≡ none)
        × (buckets floats
              (query_buckets floats sqlite now_ms window_ms bucket_ms model table)
              capacity
              now_ms
              window_ms
              bucket_ms
              model
              c
            ≡ memory_buckets floats capacity now_ms window_ms bucket_ms model c)
  unfolding buckets
  query_buckets-fails capacity now_ms window_ms bucket_ms model table c pos h =
      let failure = query-fails now_ms window_ms bucket_ms model table pos h in
      (
        failure,
        elim (Bool-cases (ltb memory_window_ms window_ms)) [
          | inl e ↦ rw (failure, buckets, e) refl
          | inr e ↦ rw (buckets, e) refl
        ],
      )
