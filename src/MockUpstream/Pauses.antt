-- ===== src/MockUpstream/Pauses.antt =====
-- src/mock_upstream.rs, the bounds on the pauses of `simulate_delay`.

use mybro.MockUpstream.{Mock, simulate_delay}
use native.Mathlib.Nat.{mod-lt}
use mybro.Prelude.{arith, ℕ, ◌<◌, ◌+◌, ◌-◌, ◌/◌, ◌%◌, ◌≤◌}

-- The random part of a pause is below half of the delay where that is over 100 milliseconds.
jitter-lt : (random ms : ℕ) → 100 < ms → random % (ms / 2) < ms / 2
jitter-lt random ms long = let half : 0 < ms / 2 = omega arith in mod-lt random half

-- A pause stays within a quarter of the delay that is set: at least the delay less a quarter, at most a quarter more.
simulate_delay-bounds :
    (random : ℕ)
    → (m : Mock)
    → (m.delay_ms - m.delay_ms / 4 ≤ simulate_delay random m)
      × (simulate_delay random m ≤ m.delay_ms + m.delay_ms / 4)
unfolding simulate_delay
simulate_delay-bounds random m =
    let below = jitter-lt random m.delay_ms in (ground arith, ground arith)
