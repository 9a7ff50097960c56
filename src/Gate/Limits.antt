-- ===== src/Gate/Limits.antt =====
-- What the gate's limit guarantees, and where it does not hold.
use mybro.Prelude.{ℕ, ◌+◌, ◌-◌, ◌^◌, ◌≤◌, ◌<◌, ◌≡◌, true, Option, some, List, [], ◌∷◌, total, arith}
use mybro.Gate.Permits.{Semaphore}
use mybro.Gate.{start, looked, act, reconcile, limit_or_default, max_queue_size}
use mybro.Gate.System.{Event, arrive, run, cancel, resize, bump, System, resize_to, step}
use mybro.Gate.Counts.{waits, Inv, available-forget_up_to}

module _ (semaphore : Semaphore) where
  open semaphore use {available, available-add_permits}

  -- Every resize of the schedule finds as many free permits as it has to take back.
  unfoldable pub Settles : List Event → System semaphore → Type 0
  Settles [] s = Unit {0}
  Settles (resize limit ∷ es) s =
      (s.gate.granted - limit_or_default limit ≤ available s.gate.sem)
      × Settles es (step semaphore (resize limit) s)
  Settles (arrive ∷ es) s = Settles es (step semaphore arrive s)
  Settles (run i ∷ es) s = Settles es (step semaphore (run i) s)
  Settles (cancel i ∷ es) s = Settles es (step semaphore (cancel i) s)
  Settles (bump ∷ es) s = Settles es (step semaphore bump s)

  resize_to-same :
      (limit : Option ℕ) (t : System semaphore)
      → t.gate.granted ≡ limit_or_default limit
      → resize_to semaphore limit t ≡ t
  unfolding resize_to reconcile
  resize_to-same limit t e = ground arith

  -- A shrink that finds no free permit takes none back, and a second call with the same limit does
  -- nothing: the gate reports the new limit, and as many permits as before stay in circulation.
  pub shrink_busy :
      (limit : Option ℕ) (s : System semaphore)
      → available s.gate.sem ≡ 0
      → limit_or_default limit < s.gate.granted
      → ((resize_to semaphore limit s).gate.granted ≡ limit_or_default limit)
        × ((resize_to semaphore limit s).capacity ≡ s.capacity)
        × (resize_to semaphore limit (resize_to semaphore limit s) ≡ resize_to semaphore limit s)
  unfolding resize_to reconcile
  shrink_busy limit s busy h =
      let free =
        available-forget_up_to semaphore (s.gate.granted - limit_or_default limit) s.gate.sem in
      (
        ground (arith, free),
        ground (arith, free),
        resize_to-same limit (resize_to semaphore limit s) (ground arith),
      )

  -- An idle gate can look full. Where the counts of `Inv` hold and no request waits, but at least
  -- 256 more requests were cancelled while they waited than went past a full queue, a new request
  -- takes the queue for full.
  pub idle_full :
      (s : System semaphore)
      → Inv semaphore s
      → total waits s.tasks ≡ 0
      → s.bypassed + max_queue_size ≤ s.cancelled
      → s.cancelled < 2 ^ 64
      → act semaphore start s.gate ≡ some (s.gate, looked true)
  unfolding act
  idle_full s v quiet many small = ground (arith, v.queued)

  -- The counter wraps. Where the counts of `Inv` hold and no request waits, but more requests went
  -- past a full queue than were cancelled, and by less than 2^64 - 256, a new request takes the
  -- queue for full.
  pub wrapped_full :
      (s : System semaphore)
      → Inv semaphore s
      → total waits s.tasks ≡ 0
      → s.cancelled < s.bypassed
      → s.bypassed + max_queue_size ≤ s.cancelled + 2 ^ 64
      → act semaphore start s.gate ≡ some (s.gate, looked true)
  unfolding act
  wrapped_full s v quiet more small = ground (arith, v.queued)
