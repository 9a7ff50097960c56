-- ===== src/Gate/Examples.antt =====
-- The gate over a counting semaphore: tests, and the gate's theorems applied.
use mybro.Prelude.{ℕ, zero, suc, ◌-◌, ◌^◌, ◌≡◌, refl, none, some, List, [], ◌∷◌, ◌++◌, total}
use mybro.Gate.Permits.{counting}
use mybro.Gate.{running, new, act, bump_throttled, reconcile, forget_up_to}
use mybro.Gate.System.{Event, arrive, run, cancel, resize, bump, System, init, step, steps}
use mybro.Gate.Counts.{Inv, reach-Inv, waits}
use mybro.Gate.Limits.{Settles}

program : Unit {0}
unfolding new act bump_throttled reconcile forget_up_to init step steps Settles
program = tt

-- The same steps of `n` requests, from number `i` on.
for_each : (ℕ → List Event) → ℕ → ℕ → List Event
for_each turn zero i = []
for_each turn (suc n) i = turn i ++ for_each turn n (suc i)

-- Requests that join the queue and hang up.
hang_ups : List Event
unfolding for_each
hang_ups = for_each (λ i. arrive ∷ run i ∷ run i ∷ cancel i ∷ []) 256 0

-- Four requests run and 256 wait; the limit is raised to 300; before the waiting ones are scheduled,
-- one more request finds the queue full and a permit free; and then all run to their end.
stampede : List Event
unfolding for_each
stampede =
    for_each (λ i. arrive ∷ run i ∷ run i ∷ run i ∷ run i ∷ run i ∷ []) 4 0
    ++ (for_each (λ i. arrive ∷ run i ∷ run i ∷ []) 256 4
        ++ (resize (some 300) ∷ arrive ∷ for_each (λ i. run 260 ∷ []) 6 0
            ++ (for_each (λ i. run i ∷ run i ∷ run i ∷ run i ∷ run i ∷ []) 256 4
                ++ for_each (λ i. run i ∷ run i ∷ []) 4 0)))

one_request :
    (steps counting (arrive ∷ run 0 ∷ run 0 ∷ run 0 ∷ run 0 ∷ run 0 ∷ []) (init counting none)).gate
    ≡ record { sem = 3; granted = 4; active = 1; queued = 0; throttled = 0 }
unfolding program
one_request = refl

after_stampede : (steps counting stampede (init counting none)).gate.queued ≡ 2 ^ 64 - 1
unfolding program stampede
after_stampede = refl

abbrev lively : List Event
lively =
    arrive ∷ run 0 ∷ run 0 ∷ run 0 ∷ run 0 ∷ run 0 ∷ arrive ∷ run 1 ∷ resize (some 3) ∷ bump ∷ []

-- Four requests hold the four permits.
abbrev busy : System counting
busy = record {
  gate = record { sem = 0; granted = 4; active = 4; queued = 0; throttled = 0 };
  tasks = running ∷ running ∷ running ∷ running ∷ [];
  capacity = 4;
  bypassed = 0;
  cancelled = 0;
}

-- The gate after 256 requests that hung up in the queue.
after_hang_ups : System counting
unfolding program hang_ups
after_hang_ups = steps counting hang_ups (init counting none)

after_hang_ups-counts :
    (total waits after_hang_ups.tasks ≡ 0)
    × (after_hang_ups.bypassed ≡ 0)
    × (after_hang_ups.cancelled ≡ 256)
unfolding after_hang_ups
after_hang_ups-counts = (refl, refl, refl)

after_hang_ups-Inv : Inv counting after_hang_ups
unfolding after_hang_ups
after_hang_ups-Inv = reach-Inv counting none hang_ups

after_stampede_state : System counting
unfolding program stampede
after_stampede_state = steps counting stampede (init counting none)

stampede-counts :
    (total waits after_stampede_state.tasks ≡ 0)
    × (after_stampede_state.bypassed ≡ 1)
    × (after_stampede_state.cancelled ≡ 0)
unfolding after_stampede_state
stampede-counts = (refl, refl, refl)

stampede-Inv : Inv counting after_stampede_state
unfolding after_stampede_state
stampede-Inv = reach-Inv counting none stampede
