-- ===== src/Stats/Buckets.antt =====
-- The time buckets: which records each bucket counts.
use native.Mathlib.Nat.{div-add-mod', mod-lt, div-eq_of_lt-le}
use mybro.Prelude.{
  ℕ, zero, suc, ◌+◌, ◌-◌, ◌*◌, ◌/◌, ◌≤◌, ◌<◌, max, ◌≡◌, refl, subst, ◌≢◌, inl, inr, Bool, true,
  false, not, ◌&&◌, ◌||◌, String, Option, none, some, List, [], ◌∷◌, length, filter, get_elem?, set,
  get_elem?-set_self, get_elem?-set_ne, lt_of_get_elem?, Option-cases, Bool-cases, ltb, leb, ◌==◌,
  if◌then◌else◌, arith,
}
use mybro.Stats.{RequestRecord, StatsCollector, model_matches}
use mybro.Stats.Series.{
  Bucket, empty_bucket, add_to_bucket, empty_buckets, add_record, add_records, fill_buckets,
}

-- The bucket starts at a multiple of its length from the window's start, and includes its start.
abbrev pub belongs : ℕ → ℕ → ℕ → Option String → ℕ → RequestRecord → Bool
belongs start_ms now_ms bucket_ms model j r =
    leb (start_ms + j * bucket_ms) r.ts_ms
    && ltb r.ts_ms (start_ms + (j + 1) * bucket_ms)
    && leb r.ts_ms now_ms
    && model_matches model r

-- A bucket with the records of a list added, in order.
unfoldable pub add_each : List RequestRecord → Bucket → Bucket
add_each [] b = b
add_each (r ∷ rs) b = add_each rs (add_to_bucket r b)

module _ (start_ms now_ms bucket_ms : ℕ) (model : Option String) (pos : 0 < bucket_ms) where
  in_bucket :
      (d j : ℕ) → (d / bucket_ms == j) ≡ (leb (j * bucket_ms) d && ltb d ((j + 1) * bucket_ms))
  in_bucket d j = elim (Bool-cases (d / bucket_ms == j)) [
    | inl same ↦
        let e : d / bucket_ms ≡ j = ground arith in
        let q = div-add-mod' d bucket_ms in
        let m = mod-lt d pos in
        let lo : j * bucket_ms ≤ d = rw (← e) (omega arith) in
        let hi : d < (j + 1) * bucket_ms = rw (← e) (omega arith) in rw same (ground arith)
    | inr other ↦ elim (Bool-cases (leb (j * bucket_ms) d && ltb d ((j + 1) * bucket_ms))) [
      | inl inside ↦
          let lo : j * bucket_ms ≤ d = ground arith in
          let hi : d < (j + 1) * bucket_ms = ground arith in
          let e : d / bucket_ms ≡ j = div-eq_of_lt-le bucket_ms lo hi in absurd (ground arith)
      | inr outside ↦ rw (other, outside) refl
    ]
  ]

  -- The record is skipped before its bucket is looked up.
  skips : RequestRecord → Bool
  skips r = (ltb r.ts_ms start_ms || ltb now_ms r.ts_ms) || not (model_matches model r)

  belongs-skips :
      (r : RequestRecord) (j : ℕ)
      → skips r ≡ true
      → belongs start_ms now_ms bucket_ms model j r ≡ false
  unfolding skips
  belongs-skips r j h = ground arith

  belongs-eq :
      (r : RequestRecord) (j : ℕ)
      → skips r ≡ false
      → belongs start_ms now_ms bucket_ms model j r ≡ ((r.ts_ms - start_ms) / bucket_ms == j)
  unfolding skips
  belongs-eq r j h = rw (in_bucket (r.ts_ms - start_ms) j) (ground arith)

  update : RequestRecord → List Bucket → ℕ → List Bucket
  update r bs i = elim (get_elem? bs i) [ none ↦ bs | some b ↦ set bs i (add_to_bucket r b) ]

  add_record-update :
      (r : RequestRecord) (bs : List Bucket)
      → add_record start_ms now_ms bucket_ms model r bs
        ≡ (if skips r then bs else update r bs ((r.ts_ms - start_ms) / bucket_ms))
  unfolding add_record skips update
  add_record-update r bs = ground arith

  update_self :
      (r : RequestRecord) (bs : List Bucket) (j : ℕ) (b : Bucket)
      → get_elem? bs j ≡ some b
      → get_elem? (update r bs j) j ≡ some (add_to_bucket r b)
  unfolding update
  update_self r bs j b at =
      rw (update, at) (get_elem?-set_self bs j (add_to_bucket r b) (lt_of_get_elem? bs j b at))

  update_ne :
      (r : RequestRecord) (bs : List Bucket) (i j : ℕ)
      → i ≢ j
      → get_elem? (update r bs i) j ≡ get_elem? bs j
  unfolding update
  update_ne r bs i j ne = elim (Option-cases (get_elem? bs i)) [
    | inl e ↦ rw (update, e) refl
    | inr (b, e) ↦ rw (update, e) (get_elem?-set_ne bs i j (add_to_bucket r b) ne)
  ]

  add_record-get :
      (r : RequestRecord) (bs : List Bucket) (j : ℕ) (b : Bucket)
      → get_elem? bs j ≡ some b
      → get_elem? (add_record start_ms now_ms bucket_ms model r bs) j
        ≡ some (if belongs start_ms now_ms bucket_ms model j r then add_to_bucket r b else b)
  add_record-get r bs j b at = elim (Bool-cases (skips r)) [
    | inl skip ↦ rw (add_record-update r bs, skip, belongs-skips r j skip) at
    | inr keep ↦ elim (Bool-cases ((r.ts_ms - start_ms) / bucket_ms == j)) [
      | inl same ↦
          let e : (r.ts_ms - start_ms) / bucket_ms ≡ j = ground arith in
          rw (add_record-update r bs, keep, belongs-eq r j keep, same, e) (update_self r bs j b at)
      | inr other ↦
          let ne : (r.ts_ms - start_ms) / bucket_ms ≢ j = ground arith in
          rw
            (
              add_record-update r bs,
              keep,
              belongs-eq r j keep,
              other,
              update_ne r bs ((r.ts_ms - start_ms) / bucket_ms) j ne,
            )
            at
    ]
  ]

  add_each-filter :
      (r : RequestRecord) (rs : List RequestRecord) (j : ℕ) (b : Bucket)
      → add_each (filter (belongs start_ms now_ms bucket_ms model j) (r ∷ rs)) b
        ≡ add_each
            (filter (belongs start_ms now_ms bucket_ms model j) rs)
            (if belongs start_ms now_ms bucket_ms model j r then add_to_bucket r b else b)
  unfolding add_each
  add_each-filter r rs j b = elim (Bool-cases (belongs start_ms now_ms bucket_ms model j r)) [
    | inl e ↦ rw (filter, e) refl
    | inr e ↦ rw (filter, e) refl
  ]

  add_records-get :
      (rs : List RequestRecord) (bs : List Bucket) (j : ℕ) (b : Bucket)
      → get_elem? bs j ≡ some b
      → get_elem? (add_records start_ms now_ms bucket_ms model rs bs) j
        ≡ some (add_each (filter (belongs start_ms now_ms bucket_ms model j) rs) b)
  unfolding add_records add_each
  add_records-get [] bs j b at = at
  add_records-get (r ∷ rs) bs j b at = rw (add_each-filter r rs j b) (
      add_records-get rs (add_record start_ms now_ms bucket_ms model r bs) j
        (if belongs start_ms now_ms bucket_ms model j r then add_to_bucket r b else b)
        (add_record-get r bs j b at))

empty_buckets-get :
    (start_ms bucket_ms left i j : ℕ)
    → j < left
    → get_elem? (empty_buckets start_ms bucket_ms left i) j
      ≡ some (empty_bucket (start_ms + (i + j) * bucket_ms))
unfolding empty_buckets
empty_buckets-get s b zero i j h = absurd (omega arith)
empty_buckets-get s b (suc left) i zero h = let e : i + 0 ≡ i = omega arith in rw e refl
empty_buckets-get s b (suc left) i (suc j) h =
    let e : i + 1 + j ≡ i + suc j = omega arith in
    rw (← e) (empty_buckets-get s b left (i + 1) j (omega arith))

-- With buckets of at least a millisecond, the bucket with number j starts at the window's start plus
-- j times its length, and is what adding exactly the records that belong to it makes of an empty
-- bucket, in their order: those of the model asked for, from the bucket's start on and before its
-- end, and not after now.
pub fill_buckets-get :
    (now_ms window_ms bucket_ms : ℕ) (model : Option String) (c : StatsCollector)
    → 0 < bucket_ms
    → (j : ℕ) → j < max (window_ms / bucket_ms) 1
    → (bs : List Bucket) × (fill_buckets now_ms window_ms bucket_ms model c ≡ some bs)
      × (get_elem? bs j
          ≡ some (
              add_each
                (filter (belongs (now_ms - window_ms) now_ms bucket_ms model j) c.records)
                (empty_bucket (now_ms - window_ms + j * bucket_ms))))
unfolding fill_buckets
fill_buckets-get now_ms window_ms bucket_ms model c pos j lt =
    let start = now_ms - window_ms in
    let bs0 = empty_buckets start bucket_ms (max (window_ms / bucket_ms) 1) 0 in
    let e : 0 + j ≡ j = omega arith in
    let nz : (bucket_ms == 0) ≡ false = ground arith in
    (
      add_records start now_ms bucket_ms model c.records bs0,
      rw nz refl,
      add_records-get start now_ms bucket_ms model pos c.records bs0 j
          (empty_bucket (start + j * bucket_ms))
          (subst (λ k. get_elem? bs0 j ≡ some (empty_bucket (start + k * bucket_ms))) e
            (empty_buckets-get start bucket_ms (max (window_ms / bucket_ms) 1) 0 j lt)),
    )

-- What the counters of a bucket say of the records added to it.
pub add_each-counts :
    (rs : List RequestRecord) (b : Bucket)
    → b.throttled ≤ b.errors
    → b.errors ≤ b.count
    → b.cached ≤ b.count
    → ((add_each rs b).count ≡ b.count + length rs)
      × ((add_each rs b).throttled ≤ (add_each rs b).errors)
      × ((add_each rs b).errors ≤ (add_each rs b).count)
      × ((add_each rs b).cached ≤ (add_each rs b).count)
unfolding add_each add_to_bucket
add_each-counts [] b t e c = (omega arith, t, e, c)
add_each-counts (r ∷ rs) b t e c =
    let (n, t', e', c') =
      add_each-counts rs (add_to_bucket r b) (ground arith) (ground arith) (ground arith) in
    (omega (arith, n), t', e', c')
