-- ===== src/Gate/System.antt =====
-- Any number of requests at one gate: every schedule of their steps, of cancellations and of resizes.
use mybro.Prelude.{ℕ, ◌+◌, ◌-◌, Option, none, some, List, [], ◌∷◌, ◌++◌, get_elem?, set}
use mybro.Gate.Permits.{Semaphore}
use mybro.Gate.{
  Pc, start, waiting, bypassing, finished, Gate, act, bump_throttled, reconcile, new,
  limit_or_default,
}

pub data Event : Type 0 where
  -- a request comes in
  arrive : Event
  -- request `i` makes its next step
  run : ℕ → Event
  -- the future of request `i` is dropped while it waits, as when its client hangs up
  cancel : ℕ → Event
  -- the limit is reconciled
  resize : Option ℕ → Event
  -- the chat pipeline counts an upstream refusal
  bump : Event

abbrev pub is_bypassing : Pc → ℕ
is_bypassing bypassing = 1
is_bypassing _ = 0

module _ (semaphore : Semaphore) where
  open semaphore use {Sem, available}

  -- The last three fields are kept for the theorems alone: the permits that exist, in the semaphore
  -- or in the hands of requests; the requests that entered past a full queue; and the cancelled ones.
  pub record System : Type 0 where
    pub gate : Gate semaphore
    pub tasks : List Pc
    pub capacity : ℕ
    pub bypassed : ℕ
    pub cancelled : ℕ

  unfoldable pub init : Option ℕ → System
  init limit = record {
    gate = new semaphore limit;
    tasks = [];
    capacity = limit_or_default limit;
    bypassed = 0;
    cancelled = 0;
  }

  unfoldable pub run_task : ℕ → System → System
  run_task i s = elim (get_elem? s.tasks i) [
    | none ↦ s
    | some p ↦ elim (act semaphore p s.gate) [
      | none ↦ s
      | some (g, q) ↦ record s {
        gate = g;
        tasks = set s.tasks i q;
        bypassed = s.bypassed + is_bypassing p;
      }
    ]
  ]

  -- Dropping the future of `acquire` undoes nothing.
  unfoldable pub cancel_task : ℕ → System → System
  cancel_task i s = elim (get_elem? s.tasks i) [
    | none ↦ s
    | some p ↦ elim p [
      | waiting ↦ record s { tasks = set s.tasks i finished; cancelled = s.cancelled + 1 }
      | _ ↦ s
    ]
  ]

  unfoldable pub resize_to : Option ℕ → System → System
  resize_to limit s =
      let g = reconcile semaphore limit s.gate in
      record s { gate = g; capacity = s.capacity + available g.sem - available s.gate.sem }

  unfoldable pub step : Event → System → System
  unfolding run_task cancel_task resize_to
  step arrive s = record s { tasks = s.tasks ++ start ∷ [] }
  step (run i) s = run_task i s
  step (cancel i) s = cancel_task i s
  step (resize limit) s = resize_to limit s
  step bump s = record s { gate = bump_throttled semaphore s.gate }

  unfoldable pub steps : List Event → System → System
  steps [] s = s
  steps (e ∷ es) s = steps es (step e s)
