-- ===== src/KeyPool/Scan.antt =====
-- The round-robin loop of `KeyPool::acquire`: what one scan from the cursor finds.
use mybro.Prelude.{
  ℕ, zero, suc, ◌+◌, ◌%◌, ◌≤◌, ◌<◌, ◌≡◌, refl, ◌⊎◌, inl, inr, Bool, true, false, Option, none, some,
  length, get_elem?, set, get_elem?-lt, Bool-cases, leb, arith,
}
use mybro.KeyPool.{KeyEntry, KeySlot, PoolInner, is_usable, revive, slot, round_robin}

-- Whether the entry with that index exists and can be used.
abbrev pub usable_at : ℕ → PoolInner → ℕ → Bool
usable_at now p j = elim (get_elem? p.entries j) [ none ↦ false | some e ↦ is_usable now e ]

-- The index that the loop looks at in round `k`.
abbrev pub probe : PoolInner → ℕ → ℕ
probe p k = (p.cursor + k) % length p.entries

abbrev pub taken : PoolInner → ℕ → KeyEntry → Option KeySlot × PoolInner
taken p idx e = (
  some (slot idx e),
  record p { entries = set p.entries idx (revive e); cursor = (idx + 1) % length p.entries },
)

-- Either every probe from `i` on is unusable and nothing changes, or the first usable one is taken.
abbrev pub Scanned : ℕ → PoolInner → ℕ → Option KeySlot × PoolInner → Type 0
Scanned now p i r =
    ((r ≡ (none, p))
      × ((k : ℕ) → i ≤ k → k < length p.entries → usable_at now p (probe p k) ≡ false))
    ⊎ ((k : ℕ) × (e : KeyEntry) × (i ≤ k)
        × (k < length p.entries)
        × (get_elem? p.entries (probe p k) ≡ some e)
        × (is_usable now e ≡ true)
        × (r ≡ taken p (probe p k) e)
        × ((j : ℕ) → i ≤ j → j < k → usable_at now p (probe p j) ≡ false))

mod-lt : (a n : ℕ) → 0 < n → a % n < n
mod-lt a n h = omega arith

-- The first probe is usable.
scan_hit :
    (now : ℕ) (p : PoolInner) (left i : ℕ) (e : KeyEntry)
    → i < length p.entries
    → get_elem? p.entries (probe p i) ≡ some e
    → is_usable now e ≡ true
    → Scanned now p i (round_robin now (suc left) i p)
unfolding round_robin
scan_hit now p left i e lt found usable = inr (
  i,
  e,
  omega arith,
  lt,
  found,
  usable,
  rw (found, round_robin, usable),
  λ j h k. absurd (omega arith),
)

-- The first probe is not usable.
scan_miss :
    (now : ℕ) (p : PoolInner) (left i : ℕ) (e : KeyEntry)
    → get_elem? p.entries (probe p i) ≡ some e
    → is_usable now e ≡ false
    → round_robin now (suc left) i p ≡ round_robin now left (i + 1) p
unfolding round_robin
scan_miss now p left i e found unusable = rw (found, round_robin, unusable)

extend :
    (now : ℕ) (p : PoolInner) (i : ℕ) (r : Option KeySlot × PoolInner)
    → usable_at now p (probe p i) ≡ false
    → Scanned now p (i + 1) r
    → Scanned now p i r
extend now p i r miss (inl (e, none_left)) = inl (e, later)
  where
    later : (k : ℕ) → i ≤ k → k < length p.entries → usable_at now p (probe p k) ≡ false
    later k h lt = elim (Bool-cases (leb k i)) [
      | inl at ↦ let same : k ≡ i = ground arith in rw same miss
      | inr after ↦ none_left k (ground arith) lt
    ]
extend now p i r miss (inr (k, e, h, lt, found, usable, q, none_before)) =
    inr (k, e, omega arith, lt, found, usable, q, before)
  where
    before : (j : ℕ) → i ≤ j → j < k → usable_at now p (probe p j) ≡ false
    before j g jk = elim (Bool-cases (leb j i)) [
      | inl at ↦ let same : j ≡ i = ground arith in rw same miss
      | inr after ↦ none_before j (ground arith) jk
    ]

pub round_robin-Scanned :
    (now : ℕ) (p : PoolInner) (left i : ℕ)
    → i + left ≡ length p.entries
    → Scanned now p i (round_robin now left i p)
unfolding round_robin
round_robin-Scanned now p zero i h = inl (refl, λ k g lt. absurd (omega arith))
round_robin-Scanned now p (suc left) i h =
    let (e, found) =
      get_elem?-lt p.entries (probe p i) (mod-lt (p.cursor + i) (length p.entries) (omega arith)) in
    elim (Bool-cases (is_usable now e)) [
      | inl usable ↦ scan_hit now p left i e (omega arith) found usable
      | inr unusable ↦ rw (scan_miss now p left i e found unusable) (
          extend now p i _ (rw (found, usable_at) unusable)
            (round_robin-Scanned now p left (i + 1) (omega arith)))
    ]
