-- ===== src/Gate/Counts.antt =====
-- What the gate's counters count, in every schedule.
use mybro.Prelude.{
  ℕ, zero, suc, ◌+◌, ◌-◌, ◌%◌, ◌^◌, ◌≤◌, ◌<◌, ◌≡◌, refl, inl, inr, true, false, Option, some, List,
  [], ◌∷◌, get_elem?, set, total, total-append, total-set, Option-cases, arith,
}
use mybro.Gate.Permits.{Semaphore}
use mybro.Gate.{
  Pc, start, looked, waiting, assigned, bypassing, entering, running, leaving, rejected, finished,
  Gate, act, bump_throttled, reconcile, new, limit_or_default, forget_up_to,
}
use mybro.Gate.System.{
  Event, arrive, run, cancel, resize, bump, System, init, run_task, cancel_task, resize_to, step,
  steps, is_bypassing,
}

-- Holds a permit.
abbrev pub holds : Pc → ℕ
holds assigned = 1
holds bypassing = 1
holds entering = 1
holds running = 1
holds leaving = 1
holds _ = 0

-- Is counted in `active`.
abbrev pub runs : Pc → ℕ
runs running = 1
runs _ = 0

-- Has added itself to `queued`, and not yet taken itself out.
abbrev pub waits : Pc → ℕ
waits waiting = 1
waits assigned = 1
waits _ = 0

module _ (semaphore : Semaphore) where
  open semaphore use {
    available, available-create, available-try_acquire, available-release, available-add_permits,
    try_acquire,
  }

  -- What one step of a request does to the counters.
  pub record Moved (p : Pc) (g g' : Gate semaphore) (q : Pc) : Type 0 where
    permit : available g'.sem + holds q ≡ available g.sem + holds p
    active : g.active < 2 ^ 64 → (g'.active + runs p) % 2 ^ 64 ≡ (g.active + runs q) % 2 ^ 64
    small : g.active < 2 ^ 64 → g'.active < 2 ^ 64
    queued : (g'.queued + is_bypassing p + waits p) % 2 ^ 64 ≡ (g.queued + waits q) % 2 ^ 64
    pub granted : g'.granted ≡ g.granted

  pub act-Moved :
      (p : Pc) (g g' : Gate semaphore) (q : Pc) → act semaphore p g ≡ some (g', q) → Moved p g g' q
  unfolding act
  act-Moved start g g' q h = ground arith
  act-Moved (looked true) g g' q h = elim (Option-cases (try_acquire g.sem)) [
    | inl out ↦ ground arith
    | inr (s, got) ↦ ground (arith, available-try_acquire g.sem s)
  ]
  act-Moved (looked false) g g' q h = ground arith
  act-Moved waiting g g' q h = elim (Option-cases (try_acquire g.sem)) [
    | inl out ↦ ground arith
    | inr (s, got) ↦ ground (arith, available-try_acquire g.sem s)
  ]
  act-Moved assigned g g' q h = ground arith
  act-Moved bypassing g g' q h = ground arith
  act-Moved entering g g' q h = ground arith
  act-Moved running g g' q h = ground arith
  act-Moved leaving g g' q h = ground (arith, available-release g.sem)
  act-Moved rejected g g' q h = ground arith
  act-Moved finished g g' q h = ground arith

  pub available-forget_up_to :
      (d : ℕ) (s : semaphore.Sem) → available (forget_up_to semaphore d s) ≡ available s - d
  unfolding forget_up_to
  available-forget_up_to zero s = omega arith
  available-forget_up_to (suc d) s = elim (Option-cases (try_acquire s)) [
    | inl out ↦
        rw (out, forget_up_to)
          (omega (arith, available-forget_up_to d s, semaphore.try_acquire-none s out))
    | inr (t, got) ↦
        rw (got, forget_up_to)
          (omega (arith, available-forget_up_to d t, available-try_acquire s t got))
  ]

  -- In every schedule: each permit is free or held by a request; `active` counts the requests that
  -- hold a guard; `queued` is the number of waiting requests, less one for every request that went
  -- past the full queue, plus one for every request that was cancelled while it waited; and there
  -- are never fewer permits than the limit.
  pub record Inv (s : System semaphore) : Type 0 where
    pub permits : available s.gate.sem + total holds s.tasks ≡ s.capacity
    pub active : s.gate.active ≡ total runs s.tasks % 2 ^ 64
    pub queued :
        (s.gate.queued + s.bypassed) % 2 ^ 64 ≡ (total waits s.tasks + s.cancelled) % 2 ^ 64
    pub floor : s.gate.granted ≤ s.capacity

  pub init-Inv : (limit : Option ℕ) → Inv (init semaphore limit)
  unfolding init new
  init-Inv limit = record {
    permits = omega (arith, available-create (limit_or_default limit));
    active = refl;
    queued = refl;
    floor = omega arith;
  }

  Moved-Inv :
      (s : System semaphore) (i : ℕ) (p : Pc) (g : Gate semaphore) (q : Pc)
      → get_elem? s.tasks i ≡ some p
      → Moved p s.gate g q
      → Inv s
      → Inv (record s { gate = g; tasks = set s.tasks i q; bypassed = s.bypassed + is_bypassing p })
  Moved-Inv s i p g q at m v =
      let fits : s.gate.active < 2 ^ 64 = omega (arith, v.active) in
      record {
        permits = omega (arith, m.permit, v.permits, total-set holds s.tasks i p q at);
        active =
            omega (arith, m.active fits, m.small fits, v.active, total-set runs s.tasks i p q at);
        queued = omega (arith, m.queued, v.queued, total-set waits s.tasks i p q at);
        floor = omega (arith, m.granted, v.floor);
      }

  run_task-Inv : (i : ℕ) (s : System semaphore) → Inv s → Inv (run_task semaphore i s)
  unfolding run_task
  run_task-Inv i s v = elim (Option-cases (get_elem? s.tasks i)) [
    | inl missing ↦ rw (missing, run_task) v
    | inr (p, at) ↦ elim (Option-cases (act semaphore p s.gate)) [
      | inl blocked ↦ rw (at, run_task, blocked) v
      | inr ((g, q), moved) ↦
          rw (at, run_task, moved) (Moved-Inv s i p g q at (act-Moved p s.gate g q moved) v)
    ]
  ]

  cancel_at-Inv :
      (s : System semaphore) (i : ℕ)
      → get_elem? s.tasks i ≡ some waiting
      → Inv s
      → Inv (record s { tasks = set s.tasks i finished; cancelled = s.cancelled + 1 })
  cancel_at-Inv s i at v = record {
    permits = omega (arith, total-set holds s.tasks i waiting finished at);
    active = rw v.active (omega (arith, total-set runs s.tasks i waiting finished at));
    queued = omega (arith, total-set waits s.tasks i waiting finished at);
    floor = v.floor;
  }

  cancel_pc-Inv :
      (i : ℕ) (s : System semaphore) (p : Pc)
      → get_elem? s.tasks i ≡ some p
      → Inv s
      → Inv (cancel_task semaphore i s)
  unfolding cancel_task
  cancel_pc-Inv i s waiting at v = rw (at, cancel_task) (cancel_at-Inv s i at v)
  cancel_pc-Inv i s _ at v = rw (at, cancel_task) v

  resize_to-Inv :
      (limit : Option ℕ) (s : System semaphore) → Inv s → Inv (resize_to semaphore limit s)
  unfolding resize_to reconcile
  resize_to-Inv limit s v = record {
    permits = ground (
      arith,
      available-forget_up_to (s.gate.granted - limit_or_default limit) s.gate.sem,
      available-add_permits (limit_or_default limit - s.gate.granted) s.gate.sem,
    );
    active = ground arith;
    queued = ground arith;
    floor = ground (
      arith,
      available-forget_up_to (s.gate.granted - limit_or_default limit) s.gate.sem,
      available-add_permits (limit_or_default limit - s.gate.granted) s.gate.sem,
    );
  }

  pub step-Inv : (e : Event) (s : System semaphore) → Inv s → Inv (step semaphore e s)
  unfolding step bump_throttled
  step-Inv arrive s v = record {
    permits = omega (arith, v.permits, total-append holds s.tasks (start ∷ []));
    active = omega (arith, v.active, total-append runs s.tasks (start ∷ []));
    queued = omega (arith, v.queued, total-append waits s.tasks (start ∷ []));
    floor = v.floor;
  }
  step-Inv (run i) s v = run_task-Inv i s v
  step-Inv (cancel i) s v = elim (Option-cases (get_elem? s.tasks i)) [
    | inl missing ↦ rw (missing, cancel_task) v
    | inr (p, at) ↦ cancel_pc-Inv i s p at v
  ]
  step-Inv (resize limit) s v = resize_to-Inv limit s v
  step-Inv bump s v = record {
    permits = v.permits;
    active = v.active;
    queued = v.queued;
    floor = v.floor;
  }

  pub steps-Inv : (es : List Event) (s : System semaphore) → Inv s → Inv (steps semaphore es s)
  unfolding steps
  steps-Inv [] s v = v
  steps-Inv (e ∷ es) s v = steps-Inv es (step semaphore e s) (step-Inv e s v)

  pub reach-Inv :
      (limit : Option ℕ) (es : List Event) → Inv (steps semaphore es (init semaphore limit))
  reach-Inv limit es = steps-Inv es (init semaphore limit) (init-Inv limit)
