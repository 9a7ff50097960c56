-- ===== src/KeyPool.antt =====
-- src/keypool.rs: the pool of upstream API keys.
-- `PoolInner` is the state behind the mutex, so each function is one critical section. Instants and
-- durations are nanoseconds; a call reads the clock once, as its argument `now`. `t.elapsed()` is
-- `now - t`, which stops at 0 as `Instant::elapsed` does.
pub mod Scan
pub mod Acquire
pub mod Cooldown
pub mod Rotation
mod Examples
use mathlib.Core.Option
use mybro.Config.{ConfigKey}
use mybro.Config.Mask.{mask_token}
use mybro.Prelude.{
  ℕ, zero, suc, ◌+◌, ◌-◌, ◌*◌, ◌/◌, ◌%◌, ◌^◌, ◌≡◌, ◌<◌, ◌⊎◌, String, Bool, true, false, not, ◌&&◌,
  ◌||◌, Option, none, some, List, [], ◌∷◌, map, length, filter, get_elem?, set, ltb, leb, is_empty,
  if◌then◌else◌,
}

pub record KeyEntry : Type 0 where
  pub key : String
  pub name : String
  pub healthy : Bool
  pub last_error : Option ℕ
  pub cooldown : ℕ

pub record KeySlot : Type 0 where
  pub index : ℕ
  pub key : String
  pub name : String

pub record PoolInner : Type 0 where
  pub entries : List KeyEntry
  pub cursor : ℕ

-- `Duration::from_secs`.
abbrev pub from_secs : ℕ → ℕ
from_secs n = n * 1_000_000_000

abbrev pub default_cooldown : ℕ
default_cooldown = from_secs 30

unfoldable pub from_config : ConfigKey → KeyEntry
from_config ck = record {
  key = ck.key;
  name = ck.name;
  healthy = true;
  last_error = none;
  cooldown = default_cooldown;
}

unfoldable pub is_past_cooldown : ℕ → KeyEntry → Bool
is_past_cooldown now e = elim e.last_error [ none ↦ true | some t ↦ leb e.cooldown (now - t) ]

unfoldable pub is_usable : ℕ → KeyEntry → Bool
is_usable now e = not (is_empty e.key) && (e.healthy || is_past_cooldown now e)

unfoldable pub new : List KeyEntry → PoolInner
new entries = record { entries = entries; cursor = 0 }

-- The three writes to an entry that is handed out.
abbrev pub revive : KeyEntry → KeyEntry
revive e = record e { healthy = true; last_error = none }

abbrev pub slot : ℕ → KeyEntry → KeySlot
slot idx e = record { index = idx; key = e.key; name = e.name }

-- The branch on `preferred`; `none` is the fall through to the round-robin.
unfoldable pub try_preferred : ℕ → Option ℕ → PoolInner → Option (KeySlot × PoolInner)
try_preferred now none p = none
try_preferred now (some idx) p = elim (get_elem? p.entries idx) [
  | none ↦ none
  | some e ↦
      if is_usable now e
      then some (slot idx e, record p { entries = set p.entries idx (revive e) })
      else none
]

-- `for i in 0..n`, with the number of rounds left. `idx` is in range in every round.
unfoldable pub round_robin : ℕ → ℕ → ℕ → PoolInner → Option KeySlot × PoolInner
round_robin now zero i p = (none, p)
round_robin now (suc left) i p =
    let n = length p.entries in
    let idx = (p.cursor + i) % n in
    let rest = round_robin now left (i + 1) p in
    elim (get_elem? p.entries idx) [
      | none ↦ rest
      | some e ↦
          if is_usable now e
          then (
            some (slot idx e),
            record p { entries = set p.entries idx (revive e); cursor = (idx + 1) % n },
          )
          else rest
    ]

unfoldable pub acquire : ℕ → Option ℕ → PoolInner → Option KeySlot × PoolInner
acquire now preferred p = elim (length p.entries) [
  | zero ↦ (none, p)
  | suc _ ↦ elim (try_preferred now preferred p) [
    | some (s, q) ↦ (some s, q)
    | none ↦ round_robin now (length p.entries) 0 p
  ]
]

unfoldable pub cooldown_for_status : ℕ → ℕ
cooldown_for_status status =
    if leb 503 status then from_secs 60 else if leb 502 status then from_secs 30 else from_secs 10

unfoldable pub mark_unhealthy : ℕ → ℕ → ℕ → PoolInner → PoolInner
mark_unhealthy now index status p = elim (get_elem? p.entries index) [
  | none ↦ p
  | some e ↦ record p {
    entries = set p.entries index (record e {
      healthy = false;
      last_error = some now;
      cooldown = cooldown_for_status status;
    });
  }
]

unfoldable pub mark_healthy : ℕ → PoolInner → PoolInner
mark_healthy index p = elim (get_elem? p.entries index) [
  | none ↦ p
  | some e ↦ record p { entries = set p.entries index (revive e) }
]

unfoldable pub healthy_count : ℕ → PoolInner → ℕ
healthy_count now p = length (filter (is_usable now) p.entries)

unfoldable pub total : PoolInner → ℕ
total p = length p.entries

unfoldable pub rebuild : List KeyEntry → PoolInner → PoolInner
rebuild entries p = record p { entries = entries; cursor = 0 }

pub data KeyStatus : Type 0 where
  absent active cooling : KeyStatus

pub record KeyState : Type 0 where
  pub name : String
  pub status : KeyStatus
  pub healthy : Bool
  pub remaining_cooldown_ms : ℕ
  pub token : String

unfoldable pub remaining_ms : ℕ → KeyEntry → ℕ
remaining_ms now e = elim e.last_error [
  | none ↦ 0
  | some t ↦ if leb e.cooldown (now - t) then 0 else ((e.cooldown - (now - t)) / 1_000_000) % 2 ^ 64
]

unfoldable pub entry_status : ℕ → KeyEntry → KeyStatus × ℕ
entry_status now e =
    if is_empty e.key
    then (absent, 0)
    else if e.healthy || is_past_cooldown now e
    then (active, 0)
    else (cooling, remaining_ms now e)

-- `none` is the panic of `mask_token`.
unfoldable pub entry_state : ℕ → KeyEntry → Option KeyState
entry_state now e =
    Option.map
      (λ t. record {
        name = e.name;
        status = (entry_status now e).0;
        healthy = e.healthy;
        remaining_cooldown_ms = (entry_status now e).1;
        token = t;
      })
      (mask_token e.key)

-- Over all entries in order; a panic in one is a panic of the call.
unfoldable pub entry_states : ℕ → List KeyEntry → Option (List KeyState)
entry_states now [] = some []
entry_states now (e ∷ es) =
    let rest = entry_states now es in
    elim (entry_state now e) [ none ↦ none | some k ↦ Option.map (◌∷◌ k) rest ]

unfoldable pub state : ℕ → PoolInner → Option (List KeyState)
state now p = entry_states now p.entries
