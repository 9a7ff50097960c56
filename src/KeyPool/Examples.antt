-- ===== src/KeyPool/Examples.antt =====
-- The pool at concrete inputs: tests, and the pool's theorems applied.
use mybro.Config.Mask.{mask_token}
use mybro.Prelude.{ℕ, ◌≤◌, ◌≡◌, ◌≢◌, refl, true, false, none, some, [], ◌∷◌, arith}
use mybro.KeyPool.{
  KeyEntry, PoolInner, from_secs, is_usable, is_past_cooldown, try_preferred, round_robin, acquire,
  cooldown_for_status, mark_unhealthy, mark_healthy, healthy_count, state, entry_states,
  entry_state, entry_status, remaining_ms,
}
use mybro.KeyPool.Acquire.{Acquired, acquire-Acquired}
use mybro.KeyPool.Cooldown.{acquire-mark_unhealthy}
use mybro.KeyPool.Rotation.{after}

program : Unit {0}
unfolding acquire try_preferred round_robin is_usable is_past_cooldown mark_unhealthy mark_healthy
    cooldown_for_status healthy_count state entry_states entry_state entry_status remaining_ms after
    mask_token
program = tt

abbrev primary : KeyEntry
primary = record {
  key = "sk-primary";
  name = "Primary";
  healthy = true;
  last_error = none;
  cooldown = from_secs 30;
}

abbrev backup : KeyEntry
backup = record primary { key = "sk-backup"; name = "Backup" }

-- Failed at second 1 with a status below 502.
abbrev resting : KeyEntry
resting = record primary {
  key = "sk-resting";
  name = "Resting";
  healthy = false;
  last_error = some (from_secs 1);
  cooldown = from_secs 10;
}

abbrev two_keys : PoolInner
two_keys = record { entries = primary ∷ backup ∷ []; cursor = 1 }

abbrev mixed : PoolInner
mixed = record { entries = resting ∷ primary ∷ []; cursor = 0 }

acquire_skips :
    (acquire (from_secs 2) (some 0) mixed).0
    ≡ some (record { index = 1; key = "sk-primary"; name = "Primary" })
unfolding program
acquire_skips = refl

acquire_recovers :
    (acquire (from_secs 11) (some 0) mixed).0
    ≡ some (record { index = 0; key = "sk-resting"; name = "Resting" })
unfolding program
acquire_recovers = refl

acquire-Acquired_example :
    Acquired (from_secs 2) (some 0) mixed (acquire (from_secs 2) (some 0) mixed)
acquire-Acquired_example = acquire-Acquired (from_secs 2) (some 0) mixed

acquire-mark_unhealthy_example : ◌≢◌ {A = ℕ} 0 1
unfolding program
acquire-mark_unhealthy_example =
    acquire-mark_unhealthy (from_secs 61) (from_secs 2) 1 503 (some 1) two_keys
      (record { index = 0; key = "sk-primary"; name = "Primary" }) (omega arith) refl

resting_past : (t : ℕ) → resting.last_error ≡ some t → t ≤ from_secs 2
resting_past t h = ground arith
