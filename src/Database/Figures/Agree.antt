-- ===== src/Database/Figures/Agree.antt =====
-- The summary of the database against the summary of the records in memory.
use mybro.Database.{
  Row, Averages, i64_end, as_i64, to_row, selected, failed, turned_away, was_cached, or_zero, null,
  integer, sum_cell, max_cell, avg_cell, count_cell, get_opt_u64, get_opt_f64, ttfts, ◌>>=◌,
}
use mybro.Database.Buckets.{C, or_zero_float}
use mybro.Database.Figures.{gen_tokens, gen_time, summary_cells, read_summary, query_summary}
use mybro.Prelude.{
  ℕ, ◌+◌, ◌-◌, ◌%◌, ◌^◌, ◌<◌, ◌≡◌, refl, ap, ap₂, ◌∙◌, inl, inr, String, Bool, true, ◌&&◌, Option,
  none, some, List, [], ◌∷◌, map, length, filter, length-map, length-filter-le, filter-true,
  filter-false, ltb, leb, Bool-cases, arith,
}
use mybro.Stats.Summary.{summarize-within}
use mybro.Stats.{
  RequestRecord, Floats, StatsSummary, sum, maximum, relevant, model_matches, is_error,
  is_throttled, rate, add_generation, generation, summarize,
}

abbrev as_rows : List RequestRecord → List Row
as_rows rs = map to_row rs

selected-to_row :
    (start_ms : ℕ) (model : Option String) (r : RequestRecord)
    → selected start_ms model (to_row r) ≡ (leb start_ms r.ts_ms && model_matches model r)
unfolding selected to_row model_matches
selected-to_row start_ms none r = ground arith
selected-to_row start_ms (some m) r = refl

-- The statement selects the rows of the records that memory would select.
filter-as_rows :
    (now_ms window_ms : ℕ) (model : Option String) (rs : List RequestRecord)
    → filter (selected (now_ms - window_ms) model) (as_rows rs)
      ≡ as_rows (relevant now_ms window_ms model rs)
unfolding relevant
filter-as_rows now_ms window_ms model [] = refl
filter-as_rows now_ms window_ms model (r ∷ rs) =
    let e = selected-to_row (now_ms - window_ms) model r in
    let ih = filter-as_rows now_ms window_ms model rs in
    elim (Bool-cases (leb (now_ms - window_ms) r.ts_ms)) [
      | inl f ↦ elim (Bool-cases (model_matches model r)) [
        | inl g ↦ rw (filter, e, f, g) (ap (◌∷◌ (to_row r)) ih)
        | inr g ↦ rw (filter, e, f, g) ih
      ]
      | inr f ↦ rw (filter, e, f) ih
    ]

map-as_rows {ℓ} :
    {A : Type ℓ} (f : Row → A) (g : RequestRecord → A)
    → ((r : RequestRecord) → f (to_row r) ≡ g r)
    → (rs : List RequestRecord) → map f (as_rows rs) ≡ map g rs
map-as_rows f g same [] = refl
map-as_rows f g same (r ∷ rs) = ap₂ (◌∷◌) (same r) (map-as_rows f g same rs)

count-as_rows :
    (p : Row → Bool) (q : RequestRecord → Bool)
    → ((r : RequestRecord) → p (to_row r) ≡ q r)
    → (rs : List RequestRecord) → sum (map (λ r. as_i64 (p r)) (as_rows rs)) ≡ length (filter q rs)
count-as_rows p q same [] = refl
count-as_rows p q same (r ∷ rs) =
    let ih = count-as_rows p q same rs in
    elim (Bool-cases (q r)) [
      | inl e ↦ rw (same r, filter-true q r rs e, e) (omega (arith, ih))
      | inr e ↦ rw (same r, filter-false q r rs e, e) (omega (arith, ih))
    ]

add_generation-to_row :
    (acc : ℕ × ℕ) (r : RequestRecord)
    → ((add_generation acc r).0 ≡ acc.0 + gen_tokens (to_row r))
      × ((add_generation acc r).1 ≡ acc.1 + gen_time (to_row r))
unfolding add_generation to_row
add_generation-to_row (tok, time) r = ground arith

generation-as_rows :
    (rs : List RequestRecord) (acc : ℕ × ℕ)
    → ((generation acc rs).0 ≡ acc.0 + sum (map gen_tokens (as_rows rs)))
      × ((generation acc rs).1 ≡ acc.1 + sum (map gen_time (as_rows rs)))
unfolding generation
generation-as_rows [] acc = (omega arith, omega arith)
generation-as_rows (r ∷ rs) acc =
    let (a, b) = generation-as_rows rs (add_generation acc r) in
    let (c, d) = add_generation-to_row acc r in (omega (arith, a, c), omega (arith, b, d))

bind-some {ℓ κ} :
    {A : Type ℓ} {B : Type κ} (m : Option A) (f : A → Option B) {a : A} {b : Option B}
    → m ≡ some a
    → f a ≡ b
    → (m >>= f) ≡ b
bind-some m f e h = rw e h

bind-bind-some {ℓ κ μ} :
    {A : Type ℓ} {B : Type κ} {D : Type μ} (m : Option A) (f : A → Option B) (g : B → Option D)
    {a : A} {b : Option D}
    → m ≡ some a
    → (f a >>= g) ≡ b
    → ((m >>= f) >>= g) ≡ b
bind-bind-some m f g e h = rw e h

-- What the records' figures add up to is below 2^63.
abbrev pub Small : List RequestRecord → Type 0
Small rs =
    (length rs < i64_end)
    × (sum (map (λ r. r.tokens_in) rs) < i64_end)
    × (sum (map (λ r. r.tokens_out) rs) < i64_end)
    × (sum (map (λ r. r.cached_tokens) rs) < i64_end)
    × (sum (map (λ r. r.cache_creation_tokens) rs) < i64_end)
    × (sum (map (λ r. r.duration_ms) rs) < i64_end)

was_cached-to_row : (r : RequestRecord) → was_cached (to_row r) ≡ r.cached
unfolding to_row
was_cached-to_row r = ground arith

-- A figure that a column can hold does not wrap.
no_wrap : (n : ℕ) → n < i64_end → n ≡ n % 2 ^ 64
no_wrap n h = omega arith

module _ (floats : Floats) (sqlite : Averages floats) where
  -- A column that reads back as a number.
  abbrev Reads : Option (C floats sqlite) → ℕ → Type 0
  Reads o n =
      (c : C floats sqlite) × (o ≡ some c)
      × (v : Option ℕ) × (get_opt_u64 floats sqlite c ≡ some v)
      × (or_zero v ≡ n)

  sum_cell-Reads :
      (ns : List ℕ) (n : ℕ) → sum ns ≡ n → n < i64_end → Reads (sum_cell floats sqlite ns) n
  unfolding sum_cell get_opt_u64
  sum_cell-Reads [] n e h = (null, refl, none, refl, e)
  sum_cell-Reads (m ∷ ns) n e h =
      let small : ltb (sum (m ∷ ns)) i64_end ≡ true = ground arith in
      (integer (sum (m ∷ ns)), rw (sum_cell, small) refl, some (sum (m ∷ ns)), refl, e)

  max_cell-u64 :
      (ns : List ℕ)
      → (v : Option ℕ) × (get_opt_u64 floats sqlite (max_cell floats sqlite ns) ≡ some v)
        × (or_zero v ≡ maximum ns)
  unfolding max_cell get_opt_u64
  max_cell-u64 [] = (none, refl, refl)
  max_cell-u64 (n ∷ ns) = (some (maximum (n ∷ ns)), refl, refl)

  integer-u64 : (n : ℕ) → get_opt_u64 floats sqlite (integer n) ≡ some (some n)
  unfolding get_opt_u64
  integer-u64 n = refl

  avg_cell-f64 :
      (ns : List ℕ)
      → (v : Option floats.F) × (get_opt_f64 floats sqlite (avg_cell floats sqlite ns) ≡ some v)
  unfolding avg_cell get_opt_f64
  avg_cell-f64 [] = (none, refl)
  avg_cell-f64 (n ∷ ns) = (some (sqlite.avg (sum (n ∷ ns)) (length (n ∷ ns))), refl)

  abbrev sums : (Row → ℕ) → List Row → Option (C floats sqlite)
  sums f rows = sum_cell floats sqlite (map f rows)

  -- What is read from thirteen columns.
  abbrev built :
      Option ℕ
      → Option ℕ
      → Option ℕ
      → Option ℕ
      → Option ℕ
      → Option ℕ
      → Option floats.F
      → Option floats.F
      → Option ℕ
      → Option ℕ
      → Option ℕ
      → Option ℕ
      → Option ℕ
      → StatsSummary floats
  built v0 v1 v2 v3 v4 v5 a6 a7 v8 v9 v10 v11 v12 = record {
    count = or_zero v0;
    errors = or_zero v1;
    throttled = or_zero v2;
    cached = or_zero v3;
    cached_tokens = or_zero v8;
    cache_creation_tokens = or_zero v9;
    cache_hit_rate = rate floats (or_zero v8) (or_zero v4);
    tokens_in = or_zero v4;
    tokens_out = or_zero v5;
    avg_latency_ms = or_zero_float floats sqlite a6;
    avg_ttft_ms = or_zero_float floats sqlite a7;
    max_context_tokens = or_zero v10;
    gen_tokens_out = or_zero v11;
    gen_time_ms = or_zero v12;
  }

  abbrev u64 : C floats sqlite → Option (Option ℕ)
  u64 = get_opt_u64 floats sqlite

  abbrev f64 : C floats sqlite → Option (Option floats.F)
  f64 = get_opt_f64 floats sqlite

  read_summary-some :
      (c0 c1 c2 c3 c4 c5 c6 c7 c8 c9 c10 c11 c12 : C floats sqlite)
      {v0 v1 v2 v3 v4 v5 v8 v9 v10 v11 v12 : Option ℕ} {a6 a7 : Option floats.F}
      → u64 c0 ≡ some v0
      → u64 c1 ≡ some v1
      → u64 c2 ≡ some v2
      → u64 c3 ≡ some v3
      → u64 c4 ≡ some v4
      → u64 c5 ≡ some v5
      → f64 c6 ≡ some a6
      → f64 c7 ≡ some a7
      → u64 c8 ≡ some v8
      → u64 c9 ≡ some v9
      → u64 c10 ≡ some v10
      → u64 c11 ≡ some v11
      → u64 c12 ≡ some v12
      → read_summary floats sqlite
          (c0 ∷ c1 ∷ c2 ∷ c3 ∷ c4 ∷ c5 ∷ c6 ∷ c7 ∷ c8 ∷ c9 ∷ c10 ∷ c11 ∷ c12 ∷ [])
        ≡ some (built v0 v1 v2 v3 v4 v5 a6 a7 v8 v9 v10 v11 v12)
  unfolding read_summary
  read_summary-some c0 c1 c2 c3 c4 c5 c6 c7 c8 c9 c10 c11 c12 h0 h1 h2 h3 h4 h5 h6 h7 h8 h9 h10 h11
        h12 =
      bind-some (u64 c4) _ h4 (
        bind-some (u64 c8) _ h8 (
          bind-some (u64 c9) _ h9 (
            bind-some (u64 c0) _ h0 (
              bind-some (u64 c1) _ h1 (
                bind-some (u64 c2) _ h2 (
                  bind-some (u64 c3) _ h3 (
                    bind-some (u64 c5) _ h5 (
                      bind-some (f64 c6) _ h6 (
                        bind-some (f64 c7) _ h7 (
                          bind-some (u64 c10) _ h10
                            (bind-some (u64 c11) _ h11 (bind-some (u64 c12) _ h12 refl))))))))))))

  -- For the rows that were written for any records, where the figures of the window add up to less than
  -- 2^63: the database's summary of a window and a model is there, and its counts, sums, largest context,
  -- throughput figures and hit rate are those that the same records have in memory.
  pub query_summary-summarize :
      (now_ms window_ms : ℕ) (model : Option String) (records : List RequestRecord)
      → Small (relevant now_ms window_ms model records)
      → let m = summarize floats (relevant now_ms window_ms model records) in
        (s : StatsSummary floats) × (query_summary floats sqlite now_ms window_ms model
            (as_rows records)
          ≡ some s)
        × (s.count ≡ m.count)
        × (s.errors ≡ m.errors)
        × (s.throttled ≡ m.throttled)
        × (s.cached ≡ m.cached)
        × (s.cached_tokens ≡ m.cached_tokens)
        × (s.cache_creation_tokens ≡ m.cache_creation_tokens)
        × (s.cache_hit_rate ≡ m.cache_hit_rate)
        × (s.tokens_in ≡ m.tokens_in)
        × (s.tokens_out ≡ m.tokens_out)
        × (s.max_context_tokens ≡ m.max_context_tokens)
        × (s.gen_tokens_out ≡ m.gen_tokens_out)
        × (s.gen_time_ms ≡ m.gen_time_ms)
  unfolding query_summary summary_cells read_summary summarize count_cell to_row
  query_summary-summarize now_ms window_ms model records (n, tin, tout, hit, made, dur) =
      let rs = relevant now_ms window_ms model records in
      let rows = as_rows rs in
      let (_, _, _, _, gen_le, time_le) = summarize-within floats rs in
      let (gen_eq, time_eq) = generation-as_rows rs (0, 0) in
      let column_of = λ (f : Row → ℕ) (n : ℕ) (e : sum (map f rows) ≡ n) (h : n < i64_end).
        sum_cell-Reads (map f rows) n e h in
      let (c1, e1, v1, r1, q1) =
        column_of (λ r. as_i64 (failed r)) (length (filter is_error rs))
          (count-as_rows failed is_error (λ r. refl) rs)
          (omega (arith, length-filter-le is_error rs)) in
      let (c2, e2, v2, r2, q2) =
        column_of (λ r. as_i64 (turned_away r)) (length (filter is_throttled rs))
          (count-as_rows turned_away is_throttled (λ r. refl) rs)
          (omega (arith, length-filter-le is_throttled rs)) in
      let (c3, e3, v3, r3, q3) =
        column_of (λ r. as_i64 (was_cached r)) (length (filter (λ r. r.cached) rs))
          (count-as_rows was_cached (λ r. r.cached) was_cached-to_row rs)
          (omega (arith, length-filter-le (λ r. r.cached) rs)) in
      let plain =
        λ (f : Row → ℕ) (g : RequestRecord → ℕ) (same : (r : RequestRecord) → f (to_row r) ≡ g r)
            (h : sum (map g rs) < i64_end).
          column_of f (sum (map g rs)) (ap sum (map-as_rows f g same rs)) h in
      let (c4, e4, v4, r4, q4) = plain (λ r. r.tokens_in) (λ r. r.tokens_in) (λ r. refl) tin in
      let (c5, e5, v5, r5, q5) = plain (λ r. r.tokens_out) (λ r. r.tokens_out) (λ r. refl) tout in
      let (c6, e6, v6, r6, q6) =
        plain (λ r. r.cached_tokens) (λ r. r.cached_tokens) (λ r. refl) hit in
      let (c7, e7, v7, r7, q7) =
        plain (λ r. r.cache_creation_tokens) (λ r. r.cache_creation_tokens) (λ r. refl) made in
      let (c8, e8, v8, r8, q8) =
        column_of gen_tokens (generation (0, 0) rs).0 (omega (arith, gen_eq))
          (omega (arith, gen_le)) in
      let (c9, e9, v9, r9, q9) =
        column_of gen_time (generation (0, 0) rs).1 (omega (arith, time_eq))
          (omega (arith, time_le)) in
      let (v10, r10, q10) = max_cell-u64 (map (λ r. r.tokens_in) rows) in
      let most = ap maximum (map-as_rows (λ r. r.tokens_in) (λ r. r.tokens_in) (λ r. refl) rs) in
      let (a1, f1) = avg_cell-f64 (map (λ r. r.duration_ms) rows) in
      let (a2, f2) = avg_cell-f64 (ttfts rows) in
      let size : length rows ≡ length rs = length-map to_row rs in
      let read = read_summary floats sqlite in
      (
        built (some (length rows)) v1 v2 v3 v4 v5 a1 a2 v6 v7 v10 v8 v9,
        rw (filter-as_rows now_ms window_ms model records) (
            bind-bind-some (sums (λ r. as_i64 (failed r)) rows) _ read e1 (
              bind-bind-some (sums (λ r. as_i64 (turned_away r)) rows) _ read e2 (
                bind-bind-some (sums (λ r. as_i64 (was_cached r)) rows) _ read e3 (
                  bind-bind-some (sums (λ r. r.tokens_in) rows) _ read e4 (
                    bind-bind-some (sums (λ r. r.tokens_out) rows) _ read e5 (
                      bind-bind-some (sums (λ r. r.cached_tokens) rows) _ read e6 (
                        bind-bind-some (sums (λ r. r.cache_creation_tokens) rows) _ read e7 (
                          bind-bind-some (sums gen_tokens rows) _ read e8 (
                            bind-bind-some (sums gen_time rows) _ read e9 (
                              read_summary-some (integer (length rows)) c1 c2 c3 c4 c5
                                (avg_cell floats sqlite (map (λ r. r.duration_ms) rows))
                                (avg_cell floats sqlite (ttfts rows)) c6 c7
                                (max_cell floats sqlite (map (λ r. r.tokens_in) rows)) c8 c9
                                (integer-u64 (length rows)) r1 r2 r3 r4 r5 f1 f2 r6 r7 r10 r8
                                r9)))))))))),
        size,
        q1,
        q2,
        q3,
        q6 ∙ no_wrap (sum (map (λ r. r.cached_tokens) rs)) hit,
        q7 ∙ no_wrap (sum (map (λ r. r.cache_creation_tokens) rs)) made,
        ap₂ (rate floats) (q6 ∙ no_wrap (sum (map (λ r. r.cached_tokens) rs)) hit)
            (q4 ∙ no_wrap (sum (map (λ r. r.tokens_in) rs)) tin),
        q4 ∙ no_wrap (sum (map (λ r. r.tokens_in) rs)) tin,
        q5 ∙ no_wrap (sum (map (λ r. r.tokens_out) rs)) tout,
        q10 ∙ most,
        q8 ∙ no_wrap (generation (0, 0) rs).0 (omega (arith, gen_le)),
        q9 ∙ no_wrap (generation (0, 0) rs).1 (omega (arith, time_le)),
      )
