-- ===== src/Gate.antt =====
-- src/gate.rs: admission of requests under a concurrency limit, as interleavings of atomic steps.
-- A request is a task with a program counter; each step of a task is one atomic operation of
-- `Gate::acquire` or of the guard's drop, in the order of the source. A 64-bit counter wraps.
pub mod Permits
pub mod System
pub mod Counts
pub mod Limits
mod Examples
use mybro.Prelude.{
  ℕ, zero, suc, ◌+◌, ◌-◌, ◌%◌, ◌^◌, ◌≡◌, Bool, true, false, Option, none, some, ltb, leb,
  if◌then◌else◌,
}
use Permits.{Semaphore}

abbrev pub default_concurrency_limit : ℕ
default_concurrency_limit = 4

abbrev pub max_queue_size : ℕ
max_queue_size = 256

-- `fetch_add(1)` and `fetch_sub(1)` on a 64-bit counter.
abbrev pub fetch_add : ℕ → ℕ
fetch_add n = (n + 1) % 2 ^ 64

abbrev pub fetch_sub : ℕ → ℕ
fetch_sub n = (n + 2 ^ 64 - 1) % 2 ^ 64

-- `unwrap_or(DEFAULT_CONCURRENCY_LIMIT)`.
abbrev pub limit_or_default : Option ℕ → ℕ
limit_or_default none = default_concurrency_limit
limit_or_default (some n) = n

-- Where a request stands.
pub data Pc : Type 0 where
  -- it calls `acquire`
  start : Pc
  -- it has compared `queued` with the queue's size
  looked : Bool → Pc
  -- it has counted itself into `queued`, and waits for a permit
  waiting : Pc
  -- its wait is over, and it holds a permit
  assigned : Pc
  -- it found the queue full, and a permit at once
  bypassing : Pc
  -- it has taken itself out of `queued`
  entering : Pc
  -- it holds the guard
  running : Pc
  -- the guard's drop has left `active`, and still holds the permit
  leaving : Pc
  -- it was turned away
  rejected : Pc
  -- it is over
  finished : Pc

module _ (semaphore : Semaphore) where
  open semaphore use {Sem, create, try_acquire, release, add_permits}

  pub record Gate : Type 0 where
    pub sem : Sem
    pub granted : ℕ
    pub active : ℕ
    pub queued : ℕ
    pub throttled : ℕ

  unfoldable pub new : Option ℕ → Gate
  new limit = record {
    sem = create (limit_or_default limit);
    granted = limit_or_default limit;
    active = 0;
    queued = 0;
    throttled = 0;
  }

  -- The next atomic step of a request; `none` while it is blocked, and when it is over.
  unfoldable pub act : Pc → Gate → Option (Gate × Pc)
  act start g = some (g, looked (leb max_queue_size g.queued))
  act (looked true) g = elim (try_acquire g.sem) [
    | some sem ↦ some (record g { sem = sem }, bypassing)
    | none ↦ some (record g { throttled = fetch_add g.throttled }, rejected)
  ]
  act (looked false) g = some (record g { queued = fetch_add g.queued }, waiting)
  act waiting g = elim (try_acquire g.sem) [
    | some sem ↦ some (record g { sem = sem }, assigned)
    | none ↦ none
  ]
  act assigned g = some (record g { queued = fetch_sub g.queued }, entering)
  act bypassing g = some (record g { queued = fetch_sub g.queued }, entering)
  act entering g = some (record g { active = fetch_add g.active }, running)
  act running g = some (record g { active = fetch_sub g.active }, leaving)
  act leaving g = some (record g { sem = release g.sem }, finished)
  act rejected g = none
  act finished g = none

  unfoldable pub bump_throttled : Gate → Gate
  bump_throttled g = record g { throttled = fetch_add g.throttled }

  -- `for _ in 0..diff { if let Ok(p) = try_acquire { p.forget() } }`.
  unfoldable pub forget_up_to : ℕ → Sem → Sem
  forget_up_to zero s = s
  forget_up_to (suc diff) s = elim (try_acquire s) [
    | some t ↦ forget_up_to diff t
    | none ↦ forget_up_to diff s
  ]

  unfoldable pub reconcile : Option ℕ → Gate → Gate
  reconcile new_limit g =
      let new = limit_or_default new_limit in
      if ltb g.granted new
      then record g { sem = add_permits (new - g.granted) g.sem; granted = new }
      else if ltb new g.granted
      then record g { sem = forget_up_to (g.granted - new) g.sem; granted = new }
      else g
