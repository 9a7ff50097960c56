-- ===== src/Persistence/Saved.antt =====
-- src/persist.rs: what the file holds whenever the task is at rest, in every order of updates, pings and moves.

use mybro.Config.{Config}
use mybro.Persistence.{Phase, waiting, debouncing, draining, saving, Saver}
use mybro.Prelude.{◌<◌, ◌≡◌, ◌⊎◌, true, some}

-- A write is still to come: there is a permit, or a handler has yet to ping.
abbrev pub IsBehind : Saver → Type 0
IsBehind s = (s.permit ≡ true) ⊎ (0 < s.owed)

-- At rest the file has the store, unless the last write failed or another is to come; what is being written is the
-- store, unless another write is to come.
unfoldable pub IsCurrent : Phase → Saver → Type 0
IsCurrent waiting s = (s.failed ≡ true) ⊎ ((s.file ≡ some s.store) ⊎ IsBehind s)
IsCurrent debouncing s = Unit
IsCurrent draining s = Unit
IsCurrent (saving cfg) s = (cfg ≡ s.store) ⊎ IsBehind s
