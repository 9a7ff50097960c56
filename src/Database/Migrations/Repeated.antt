-- ===== src/Database/Migrations/Repeated.antt =====
-- What holds after the migrations, and on the next start.
use mybro.Database.Migrations.{
  Applied, is_applied, insert_version, Sqlite, Migration, Db, applied_rows, baseline, apply_pending,
  is_legacy, run_migrations,
}
use mybro.Prelude.{
  ℕ, ◌≡◌, refl, subst, ◌⊎◌, inl, inr, String, str_eq, eq_iff, true, false, none, some, List, [],
  ◌∷◌, ◌++◌, length, ◌==◌, Bool-cases, Option-cases, arith,
}

-- Every migration is recorded.
abbrev pub AllApplied : List Migration → Applied → Type 0
AllApplied [] rows = Unit
AllApplied ((version, sql) ∷ ms) rows = (is_applied version rows ≡ true) × AllApplied ms rows

is_applied-append :
    (version : String) (rows more : Applied)
    → is_applied version rows ≡ true
    → is_applied version (rows ++ more) ≡ true
unfolding is_applied
is_applied-append version [] more h = absurd (ground arith)
is_applied-append version ((v, at) ∷ rows) more h = elim (Bool-cases (str_eq v version)) [
  | inl e ↦ rw (is_applied, e) refl
  | inr e ↦
      rw (is_applied, e)
        (is_applied-append version rows more (let q = rw (is_applied, e) at h in q))
]

is_applied-last :
    (version : String) (now_ms : ℕ) (rows : Applied)
    → is_applied version (rows ++ (version, now_ms) ∷ []) ≡ true
unfolding is_applied
is_applied-last version now_ms [] =
    let e = (eq_iff version version).1 refl in rw (is_applied, e) refl
is_applied-last version now_ms ((v, at) ∷ rows) = elim (Bool-cases (str_eq v version)) [
  | inl e ↦ rw (is_applied, e) refl
  | inr e ↦ rw (is_applied, e) (is_applied-last version now_ms rows)
]

-- An insertion records its version and keeps the others.
insert_version-is_applied :
    (version : String) (now_ms : ℕ) (rows rows' : Applied)
    → insert_version version now_ms rows ≡ some rows'
    → (is_applied version rows' ≡ true)
      × ((v : String) → is_applied v rows ≡ true → is_applied v rows' ≡ true)
unfolding insert_version
insert_version-is_applied version now_ms rows rows' h =
    elim (Bool-cases (is_applied version rows)) [
      | inl e ↦ absurd (let q : none ≡ some rows' = rw (insert_version, e) at h in ground arith)
      | inr e ↦
          let q : some (rows ++ (version, now_ms) ∷ []) ≡ some rows' =
            rw (insert_version, e) at h in
          let same : rows ++ (version, now_ms) ∷ [] ≡ rows' = ground arith in
          (
            rw (← same) (is_applied-last version now_ms rows),
            λ v old. rw (← same) (is_applied-append v rows ((version, now_ms) ∷ []) old),
          )
    ]

some_eq {ℓ} : {A : Type ℓ} {a b : A} → some a ≡ some b → a ≡ b
some_eq h = cc

module _ (sqlite : Sqlite) where
  -- A loop records what it goes through, and keeps what was recorded.
  abbrev Records : List Migration → Applied → Applied → Type 0
  Records ms rows rows' =
      AllApplied ms rows' × ((v : String) → is_applied v rows ≡ true → is_applied v rows' ≡ true)

  baseline-Records :
      (now_ms : ℕ) (ms : List Migration) (rows rows' : Applied)
      → baseline sqlite now_ms ms rows ≡ some rows'
      → Records ms rows rows'
  unfolding baseline
  baseline-Records now_ms [] rows rows' h =
      let same : rows ≡ rows' = ground arith in (tt, λ v old. rw (← same) old)
  baseline-Records now_ms ((version, sql) ∷ ms) rows rows' h =
      elim (Option-cases (insert_version version now_ms rows)) [
        | inl e ↦ absurd (let q : none ≡ some rows' = rw (baseline, e) at h in ground arith)
        | inr (mid, e) ↦
            let q = rw (baseline, e) at h in
            let (new, old) = insert_version-is_applied version now_ms rows mid e in
            let (all, kept) = baseline-Records now_ms ms mid rows' q in
            ((kept version new, all), λ v o. kept v (old v o))
      ]

  apply_pending-Records :
      (now_ms : ℕ) (ms : List Migration) (schema schema' : sqlite.Schema) (rows rows' : Applied)
      → apply_pending sqlite now_ms ms schema rows ≡ some (schema', rows')
      → Records ms rows rows'
  unfolding apply_pending
  apply_pending-Records now_ms [] schema schema' rows rows' h =
      let same : rows ≡ rows' = ground arith in (tt, λ v old. rw (← same) old)
  apply_pending-Records now_ms ((version, sql) ∷ ms) schema schema' rows rows' h =
      elim (Bool-cases (is_applied version rows)) [
        | inl e ↦
            let (all, kept) =
              apply_pending-Records now_ms ms schema schema' rows rows'
                (rw (apply_pending, e) at h) in
            ((kept version e, all), kept)
        | inr e ↦ elim (Option-cases (sqlite.execute_batch sql schema)) [
          | inl f ↦
              absurd (
                let q : none ≡ some (schema', rows') = rw (apply_pending, e, f) at h in
                ground arith)
          | inr (mid_schema, f) ↦ elim (Option-cases (insert_version version now_ms rows)) [
            | inl g ↦ absurd (
                let q : none ≡ some (schema', rows') = rw (apply_pending, e, f, g) at h in
                ground arith)
            | inr (mid, g) ↦
                let (new, old) = insert_version-is_applied version now_ms rows mid g in
                let (all, kept) =
                  apply_pending-Records now_ms ms mid_schema schema' mid rows'
                    (rw (apply_pending, e, f, g) at h) in
                ((kept version new, all), λ v o. kept v (old v o))
          ]
        ]
      ]

  -- Nothing is left to do where everything is recorded.
  apply_pending-AllApplied :
      (now_ms : ℕ) (ms : List Migration) (schema : sqlite.Schema) (rows : Applied)
      → AllApplied ms rows
      → apply_pending sqlite now_ms ms schema rows ≡ some (schema, rows)
  unfolding apply_pending
  apply_pending-AllApplied now_ms [] schema rows a = refl
  apply_pending-AllApplied now_ms ((version, sql) ∷ ms) schema rows (e, a) =
      rw (apply_pending, e) (apply_pending-AllApplied now_ms ms schema rows a)

  run_again :
      (now_ms : ℕ) (ms : List Migration) (schema : sqlite.Schema) (rows : Applied)
      → AllApplied ms rows
      → run_migrations sqlite now_ms ms (record { schema = schema; schema_migrations = some rows })
        ≡ some (record { schema = schema; schema_migrations = some rows })
  unfolding run_migrations is_applied
  run_again now_ms [] schema [] a = elim (Bool-cases (sqlite.has_table "requests" schema)) [
    | inl e ↦ rw (run_migrations, e) refl
    | inr e ↦ rw (run_migrations, e) refl
  ]
  run_again now_ms ((version, sql) ∷ ms) schema [] a = absurd (let e = a.0 in ground arith)
  run_again now_ms ms schema ((v, at) ∷ rows) a =
      let done = apply_pending-AllApplied now_ms ms schema ((v, at) ∷ rows) a in
      let some_rows : (length ((v, at) ∷ rows) == 0) ≡ false = ground arith in
      rw (run_migrations, some_rows, done) refl

  -- After a run without an error every migration is recorded, and the next run, at whatever time, changes
  -- nothing; where the first one found tables of the time before the migrations, it changed no table.
  pub run_migrations-repeated :
      (now_ms later_ms : ℕ) (migrations : List Migration) (db db' : Db sqlite)
      → run_migrations sqlite now_ms migrations db ≡ some db'
      → AllApplied migrations (applied_rows sqlite db')
        × (run_migrations sqlite later_ms migrations db' ≡ some db')
        × ((is_legacy sqlite db ≡ false) ⊎ (db'.schema ≡ db.schema))
  unfolding run_migrations
  run_migrations-repeated now_ms later_ms migrations db db' h =
      let P = λ (d : Db sqlite).
        AllApplied migrations (applied_rows sqlite d)
        × (run_migrations sqlite later_ms migrations d ≡ some d)
        × ((is_legacy sqlite db ≡ false) ⊎ (d.schema ≡ db.schema)) in
      elim (Bool-cases (is_legacy sqlite db)) [
        | inl e ↦ elim (Option-cases (baseline sqlite now_ms migrations (applied_rows sqlite db))) [
          | inl f ↦
              absurd (let q : none ≡ some db' = rw (run_migrations, e, f) at h in ground arith)
          | inr (rows, f) ↦
              let (all, _) = baseline-Records now_ms migrations (applied_rows sqlite db) rows f in
              subst P (some_eq (rw (run_migrations, e, f) at h))
                (all, run_again later_ms migrations db.schema rows all, inr refl)
        ]
        | inr e ↦
            elim (Option-cases
              (apply_pending sqlite now_ms migrations db.schema (applied_rows sqlite db))) [
                | inl f ↦
                    absurd
                      (let q : none ≡ some db' = rw (run_migrations, e, f) at h in ground arith)
                | inr ((schema, rows), f) ↦
                    let (all, _) =
                      apply_pending-Records now_ms migrations db.schema schema
                        (applied_rows sqlite db) rows f in
                    subst P (some_eq (rw (run_migrations, e, f) at h))
                      (all, run_again later_ms migrations schema rows all, inl e)
              ]
      ]
