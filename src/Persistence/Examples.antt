-- ===== src/Persistence/Examples.antt =====
-- The task that writes the configuration at concrete events: its theorem applied.
use mybro.Config.{Config, default_config}
use mybro.Persistence.{
  waiting, Saver, Event, updated, pinged, notified, slept, timed_out, written, ping, on_notified,
  on_written, on_slept, on_timeout, step, run,
}
use mybro.Prelude.{◌≡◌, refl, false, true, some, List, [], ◌∷◌}

abbrev other : Config
other = record default_config { max_images = 3 }

abbrev start : Saver
start = record {
  permit = false;
  owed = 0;
  phase = waiting;
  store = default_config;
  file = some default_config;
  failed = false;
}

-- A second change while the first is being written.
abbrev overtaken : List Event
overtaken =
    updated other
    ∷ pinged
    ∷ notified
    ∷ slept
    ∷ timed_out
    ∷ updated default_config
    ∷ written true
    ∷ []

first_written : (run overtaken start).file ≡ some other
unfolding run step ping on_notified on_slept on_timeout on_written
first_written = refl
