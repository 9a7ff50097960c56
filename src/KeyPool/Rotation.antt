-- ===== src/KeyPool/Rotation.antt =====
-- Fairness of the round-robin: consecutive calls walk through the pool.
use mybro.Prelude.{ℕ, zero, suc, ◌<◌, ◌≡◌, true, none, length}
use mybro.KeyPool.{PoolInner, acquire}
use mybro.KeyPool.Scan.{usable_at}

-- The pool after `k` calls without a preference.
unfoldable pub after : ℕ → ℕ → PoolInner → PoolInner
after zero now p = p
after (suc k) now p = after k now (acquire now none p).1

abbrev pub AllUsable : ℕ → PoolInner → Type 0
AllUsable now p = (j : ℕ) → j < length p.entries → usable_at now p j ≡ true
