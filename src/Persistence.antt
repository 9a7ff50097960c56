-- ===== src/Persistence.antt =====
-- src/persist.rs: the task that writes the configuration after it changed. The store is the one of the endpoints,
-- whose handlers change it and then ping. Persistence/Saved is about what the file holds.

mod Saved
mod Examples
use mybro.Config.{Config}
use mybro.Prelude.{ℕ, suc, ◌-◌, Bool, true, false, Option, some, List, [], ◌∷◌}

-- Where the task stands: waiting for a ping, asleep for 500 ms, waiting for further pings, or writing what it loaded.
pub data Phase : Type 0 where
  waiting : Phase
  debouncing : Phase
  draining : Phase
  saving : Config → Phase

-- `permit` is that of the Notify, which holds one at most; `owed` counts the handlers that have changed the store and
-- not yet pinged; `failed` tells whether the last write gave an error.
pub record Saver : Type 0 where
  pub permit : Bool
  pub owed : ℕ
  pub phase : Phase
  pub store : Config
  pub file : Option Config
  pub failed : Bool

pub data Event : Type 0 where
  updated : Config → Event
  pinged : Event
  notified : Event
  slept : Event
  timed_out : Event
  -- whether the write succeeded
  written : Bool → Event

unfoldable pub ping : Saver → Saver
ping s = record s { permit = true; owed = s.owed - 1 }

-- `notified` returns when there is a permit, and takes it.
unfoldable pub on_notified : Bool → Phase → Saver → Saver
on_notified true waiting s = record s { permit = false; phase = debouncing }
on_notified true draining s = record s { permit = false; phase = draining }
on_notified permit phase s = s

-- An error is logged, and the file keeps what it has.
unfoldable pub on_written : Bool → Phase → Saver → Saver
on_written true (saving cfg) s = record s { phase = waiting; file = some cfg; failed = false }
on_written false (saving cfg) s = record s { phase = waiting; failed = true }
on_written ok phase s = s

unfoldable pub on_slept : Phase → Saver → Saver
on_slept debouncing s = record s { phase = draining }
on_slept phase s = s

unfoldable pub on_timeout : Phase → Saver → Saver
on_timeout draining s = record s { phase = saving s.store }
on_timeout phase s = s

-- One move of a handler or of the task; a move that the task is not at changes nothing.
unfoldable pub step : Event → Saver → Saver
step (updated cfg) s = record s { store = cfg; owed = suc s.owed }
step pinged s = ping s
step notified s = on_notified s.permit s.phase s
step slept s = on_slept s.phase s
step timed_out s = on_timeout s.phase s
step (written ok) s = on_written ok s.phase s

unfoldable pub run : List Event → Saver → Saver
run [] s = s
run (e ∷ es) s = run es (step e s)
