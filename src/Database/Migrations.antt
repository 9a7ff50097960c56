-- ===== src/Database/Migrations.antt =====
-- src/db.rs, `run_migrations`: a transaction over the schema and the table of the versions applied.
-- The schema and what SQL text does to it are SQLite's: parameters. `none` is an error, after which SQLite
-- rolls the transaction back.
pub mod Repeated
use mybro.Prelude.{
  ℕ, ◌≡◌, String, str_eq, Bool, true, false, Option, none, some, List, [], ◌∷◌, ◌++◌, length, ◌==◌,
  if◌then◌else◌,
}

-- A row of `schema_migrations`: the version, and when it was applied.
abbrev pub Applied : Type 0
Applied = List (String × ℕ)

unfoldable pub is_applied : String → Applied → Bool
is_applied version [] = false
is_applied version ((v, at) ∷ rows) = if str_eq v version then true else is_applied version rows

-- `INSERT INTO schema_migrations`, whose version is the primary key.
unfoldable pub insert_version : String → ℕ → Applied → Option Applied
unfolding is_applied
insert_version version now_ms rows =
    if is_applied version rows then none else some (rows ++ (version, now_ms) ∷ [])

-- What SQLite does with the rest of the database.
pub record Sqlite : Type 1 where
  pub Schema : Type 0
  pub has_table : String → Schema → Bool
  pub execute_batch : String → Schema → Option Schema

-- A version and its SQL.
abbrev pub Migration : Type 0
Migration = String × String

module _ (sqlite : Sqlite) where
  open sqlite use {Schema, has_table, execute_batch}

  -- `schema_migrations` is `none` where the table is not there.
  pub record Db : Type 0 where
    pub schema : Schema
    pub schema_migrations : Option Applied

  -- `CREATE TABLE IF NOT EXISTS`, and then its rows.
  abbrev pub applied_rows : Db → Applied
  applied_rows db = elim db.schema_migrations [ none ↦ [] | some rows ↦ rows ]

  -- The loop that takes every migration for applied.
  unfoldable pub baseline : ℕ → List Migration → Applied → Option Applied
  unfolding insert_version
  baseline now_ms [] rows = some rows
  baseline now_ms ((version, sql) ∷ ms) rows = elim (insert_version version now_ms rows) [
    | none ↦ none
    | some rows' ↦ baseline now_ms ms rows'
  ]

  -- The loop over the migrations.
  unfoldable pub apply_pending : ℕ → List Migration → Schema → Applied → Option (Schema × Applied)
  unfolding insert_version is_applied
  apply_pending now_ms [] schema rows = some (schema, rows)
  apply_pending now_ms ((version, sql) ∷ ms) schema rows = elim (is_applied version rows) [
    | true ↦ apply_pending now_ms ms schema rows
    | false ↦ elim (execute_batch sql schema) [
      | none ↦ none
      | some schema' ↦ elim (insert_version version now_ms rows) [
        | none ↦ none
        | some rows' ↦ apply_pending now_ms ms schema' rows'
      ]
    ]
  ]

  abbrev pub is_legacy : Db → Bool
  is_legacy db = if length (applied_rows db) == 0 then has_table "requests" db.schema else false

  unfoldable pub run_migrations : ℕ → List Migration → Db → Option Db
  unfolding baseline apply_pending
  run_migrations now_ms migrations db = elim (is_legacy db) [
    | true ↦ elim (baseline now_ms migrations (applied_rows db)) [
      | none ↦ none
      | some rows ↦ some (record { schema = db.schema; schema_migrations = some rows })
    ]
    | false ↦ elim (apply_pending now_ms migrations db.schema (applied_rows db)) [
      | none ↦ none
      | some (schema, rows) ↦ some (record { schema = schema; schema_migrations = some rows })
    ]
  ]
