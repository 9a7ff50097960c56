-- ===== src/Database/Writer.antt =====
-- src/db.rs, the task of `StatsDB::new`: from the channel to the batch to the table, and the cleanup.
-- The channel stays open as long as the collector lives. An event has the clock that the task
-- reads, and what becomes of its statements.
pub mod Kept
use mybro.Database.{Row, flush_batch, cleanup}
use mybro.Prelude.{
  ℕ, ◌+◌, ◌*◌, ◌/◌, ◌%◌, Bool, ◌&&◌, Option, none, some, List, [], ◌∷◌, ◌++◌, length, ltb, leb,
  ◌==◌, if◌then◌else◌,
}
use mybro.Stats.{RequestRecord}

abbrev pub channel_size : ℕ
channel_size = 4096

abbrev pub batch_size : ℕ
batch_size = 128

-- The channel, the batch at hand, and `requests`.
pub record Task : Type 0 where
  pub channel : List RequestRecord
  pub batch : List RequestRecord
  pub table : List Row

abbrev pub now_hour : ℕ → ℕ
now_hour now_ms = now_ms / (60 * 60 * 1000)

-- An error of `flush_batch` is not looked at: the batch is gone.
unfoldable pub flush : Bool → Task → Task
unfolding flush_batch
flush works t = elim t.batch [
  | [] ↦ t
  | _ ↦ elim (flush_batch works t.batch t.table) [
    | none ↦ record t { batch = [] }
    | some rows ↦ record t { batch = []; table = rows }
  ]
]

-- Whether SQLite carries out the transaction of a flush, and the deletion of a cleanup.
pub record Outcome : Type 0 where
  pub inserts : Bool
  pub deletes : Bool

-- What the outer loop does after it has waited. An error of `cleanup` is not looked at either.
unfoldable pub after_wait : ℕ → Outcome → Task → Task
unfolding flush cleanup
after_wait now_ms o t =
    let t' = flush o.inserts t in
    if now_hour now_ms % 6 == 0 && o.deletes
    then record t' { table = cleanup now_ms t'.table }
    else t'

pub data Event : Type 0 where
  send : RequestRecord → Event
  receive : ℕ → Outcome → Event
  timeout : ℕ → Outcome → Event

-- `try_send`, whose failure is not looked at.
unfoldable pub try_send : RequestRecord → Task → Task
try_send rec t =
    if ltb (length t.channel) channel_size then record t { channel = t.channel ++ rec ∷ [] } else t

-- `receiver.recv()`, which waits as long as there is nothing.
unfoldable pub take_one : ℕ → Outcome → Task → Task
unfolding after_wait
take_one now_ms o t = elim t.channel [
  | [] ↦ t
  | rec ∷ rest ↦
      let t' = record t { channel = rest; batch = t.batch ++ rec ∷ [] } in
      if leb batch_size (length t'.batch) then after_wait now_ms o t' else t'
]

unfoldable pub step : Event → Task → Task
unfolding try_send take_one after_wait
step (send rec) t = try_send rec t
step (receive now_ms o) t = take_one now_ms o t
step (timeout now_ms o) t = after_wait now_ms o t

unfoldable pub run : List Event → Task → Task
unfolding step
run [] t = t
run (e ∷ es) t = run es (step e t)

abbrev pub start : Task
start = record { channel = []; batch = []; table = [] }

-- The records that got into the channel.
unfoldable pub took : Event → Task → List RequestRecord
took (send rec) t = if ltb (length t.channel) channel_size then rec ∷ [] else []
took (receive now_ms o) t = []
took (timeout now_ms o) t = []

unfoldable pub accepted : List Event → Task → List RequestRecord
unfolding took step
accepted [] t = []
accepted (e ∷ es) t = took e t ++ accepted es (step e t)
