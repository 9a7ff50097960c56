-- ===== src/Database.antt =====
-- src/db.rs: the table of requests, its SQL as functions on rows, and the typed reading of a result row.
-- A figure is the integer that SQLite holds for it; a `u64` from 2^63 on cannot be bound, and the casts
-- `as i64` of a window's start, of a bucket's length and of three of the columns are taken below 2^63,
-- where they change nothing. The column `id`, which nothing reads, is left out.
pub mod Buckets
pub mod Figures
pub mod Writer
pub mod Migrations
mod Examples
use mybro.Prelude.{
  ℕ, zero, suc, ◌+◌, ◌-◌, ◌*◌, ◌^◌, max, ◌≡◌, String, str_eq, Bool, true, false, ◌&&◌, ◌||◌, Option,
  none, some, List, [], ◌∷◌, ◌++◌, map, length, filter, get_elem?, ltb, leb, ◌==◌, if◌then◌else◌,
}
use mybro.Stats.{RequestRecord, Floats, sum, maximum, filter_map}

-- A row of `requests`.
pub record Row : Type 0 where
  pub ts_ms : ℕ
  pub duration_ms : ℕ
  pub ttft_ms : Option ℕ
  pub status : ℕ
  pub model : String
  pub pipeline : String
  pub key_name : String
  pub tokens_in : ℕ
  pub tokens_out : ℕ
  pub cached_tokens : ℕ
  pub cache_creation_tokens : ℕ
  pub cached : ℕ
  pub error : Option String

abbrev pub i64_end : ℕ
i64_end = 2 ^ 63

-- The values that are bound as they are.
abbrev pub fits : RequestRecord → Bool
fits rec =
    ltb rec.ts_ms i64_end
    && (ltb rec.duration_ms i64_end && (ltb rec.tokens_in i64_end && ltb rec.tokens_out i64_end))

abbrev pub as_i64 : Bool → ℕ
as_i64 true = 1
as_i64 false = 0

-- What the INSERT writes for a record.
unfoldable pub to_row : RequestRecord → Row
to_row rec = record {
  ts_ms = rec.ts_ms;
  duration_ms = rec.duration_ms;
  ttft_ms = rec.ttft_ms;
  status = rec.status;
  model = rec.model;
  pipeline = rec.pipeline;
  key_name = rec.key_name;
  tokens_in = rec.tokens_in;
  tokens_out = rec.tokens_out;
  cached_tokens = rec.cached_tokens;
  cache_creation_tokens = rec.cache_creation_tokens;
  cached = as_i64 rec.cached;
  error = rec.error;
}

-- `stmt.execute` for each record of the batch; a record that cannot be bound is an error.
unfoldable pub execute_all : List RequestRecord → List Row → Option (List Row)
unfolding to_row
execute_all [] table = some table
execute_all (rec ∷ batch) table =
    let rest = execute_all batch (table ++ to_row rec ∷ []) in if fits rec then rest else none

-- One transaction; `works` tells whether SQLite begins it, prepares and executes its statements, and commits it
-- (the database may be busy, or the disk full). `none` is an error, which rolls all of it back.
unfoldable pub flush_batch : Bool → List RequestRecord → List Row → Option (List Row)
unfolding execute_all
flush_batch works batch table =
    let written = execute_all batch table in if works then written else none

abbrev pub raw_retention_hours : ℕ
raw_retention_hours = 24

-- `now - RAW_RETENTION_HOURS * 60 * 60 * 1000`, for a clock that is past the first day of 1970.
abbrev pub raw_cutoff : ℕ → ℕ
raw_cutoff now_ms = now_ms - raw_retention_hours * 60 * 60 * 1000

-- The rows that `cleanup` leaves. Nothing writes to `hourly_stats`, whose rows it deletes too.
unfoldable pub cleanup : ℕ → List Row → List Row
cleanup now_ms table = filter (λ r. leb (raw_cutoff now_ms) r.ts_ms) table

-- `WHERE ts_ms >= ? AND model = ?`, and without the second test where no model is asked for.
unfoldable pub selected : ℕ → Option String → Row → Bool
selected start_ms none r = leb start_ms r.ts_ms
selected start_ms (some m) r = leb start_ms r.ts_ms && str_eq r.model m

-- The tests of the CASE expressions.
abbrev pub failed : Row → Bool
failed r = leb 400 r.status

abbrev pub turned_away : Row → Bool
turned_away r = r.status == 429 || r.status == 503

abbrev pub was_cached : Row → Bool
was_cached r = r.cached == 1

-- `ttft_ms IS NOT NULL AND duration_ms > ttft_ms`.
abbrev pub measurable : Row → Bool
measurable r = elim r.ttft_ms [ none ↦ false | some t ↦ ltb t r.duration_ms ]

-- `?` on a result.
infixl 5 ◌>>=◌
abbrev pub ◌>>=◌ {ℓ κ} : {A : Type ℓ} {B : Type κ} → Option A → (A → Option B) → Option B
none >>= f = none
some a >>= f = f a

abbrev pub or_zero : Option ℕ → ℕ
or_zero none = 0
or_zero (some n) = n

-- SQLite's `avg` over a sum and a number of values.
pub record Averages (floats : Floats) : Type 1 where
  pub avg : ℕ → ℕ → floats.F

module _ (floats : Floats) (sqlite : Averages floats) where
  open floats use {F, as_f64}
  open sqlite use {avg}

  -- What a column of a result row holds.
  pub data Cell : Type 0 where
    null : Cell
    integer : ℕ → Cell
    real : F → Cell
    text : String → Cell

  -- `SUM` over the values of a group: NULL for none, and an error past 64 bits.
  unfoldable pub sum_cell : List ℕ → Option Cell
  sum_cell [] = some null
  sum_cell (n ∷ ns) = if ltb (sum (n ∷ ns)) i64_end then some (integer (sum (n ∷ ns))) else none

  unfoldable pub max_cell : List ℕ → Cell
  max_cell [] = null
  max_cell (n ∷ ns) = integer (maximum (n ∷ ns))

  unfoldable pub avg_cell : List ℕ → Cell
  avg_cell [] = null
  avg_cell (n ∷ ns) = real (avg (sum (n ∷ ns)) (length (n ∷ ns)))

  -- `SUM(CASE WHEN test THEN 1 ELSE 0 END)`.
  unfoldable pub count_cell : (Row → Bool) → List Row → Option Cell
  unfolding sum_cell
  count_cell test rs = sum_cell (map (λ r. as_i64 (test r)) rs)

  -- `Row::get` at `Option<u64>`, `u64`, `Option<f64>` and `String`: `none` is the error of a column that
  -- holds another type.
  unfoldable pub get_opt_u64 : Cell → Option (Option ℕ)
  get_opt_u64 null = some none
  get_opt_u64 (integer n) = some (some n)
  get_opt_u64 (real x) = none
  get_opt_u64 (text s) = none

  unfoldable pub get_u64 : Cell → Option ℕ
  get_u64 null = none
  get_u64 (integer n) = some n
  get_u64 (real x) = none
  get_u64 (text s) = none

  unfoldable pub get_opt_f64 : Cell → Option (Option F)
  get_opt_f64 null = some none
  get_opt_f64 (integer n) = some (some (as_f64 n))
  get_opt_f64 (real x) = some (some x)
  get_opt_f64 (text s) = none

  unfoldable pub get_string : Cell → Option String
  get_string null = none
  get_string (integer n) = none
  get_string (real x) = none
  get_string (text s) = some s

  -- `row.get(i)?` with a reader; an index past the last column is an error.
  abbrev pub column {ℓ} : {A : Type ℓ} → (Cell → Option A) → ℕ → List Cell → Option A
  column read i row = elim (get_elem? row i) [ none ↦ none | some c ↦ read c ]

-- The values of a column that are not NULL.
abbrev pub ttfts : List Row → List ℕ
ttfts rs = filter_map (λ r. r.ttft_ms) rs
