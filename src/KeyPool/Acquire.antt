-- ===== src/KeyPool/Acquire.antt =====
-- `KeyPool::acquire`: which key is handed out, and when there is none.
use native.Mathlib.Nat.{mod-add-mod, add-mod-mod, mod-eq_of_lt, add-mod_right}
use mybro.Prelude.{
  ℕ, zero, suc, ◌+◌, ◌-◌, ◌%◌, ◌≤◌, ◌<◌, ◌≡◌, refl, sym, ap, subst, ◌∙◌, ◌↔◌, ◌⊎◌, inl, inr, true,
  false, Option, none, some, length, get_elem?, set, lt_of_get_elem?, length-set, Bool-cases,
  Option-cases, arith,
}
use mybro.KeyPool.{
  KeyEntry, KeySlot, PoolInner, is_usable, revive, slot, try_preferred, round_robin, acquire,
}
use mybro.KeyPool.Scan.{usable_at, probe, taken, Scanned, round_robin-Scanned}

-- Every index is probed.
probe-onto :
    (p : PoolInner) (j : ℕ)
    → j < length p.entries
    → (k : ℕ) × (k < length p.entries) × (probe p k ≡ j)
probe-onto p j h = (k, omega arith, onto)
  where
    n : ℕ
    n = length p.entries

    k : ℕ
    k = (j + (n - p.cursor % n)) % n

    onto : (p.cursor + k) % n ≡ j
    onto =
        add-mod-mod p.cursor (j + (n - p.cursor % n)) n
        ∙ sym (mod-add-mod p.cursor n (j + (n - p.cursor % n)))
        ∙ ap (λ t. t % n)
            (let e : p.cursor % n + (j + (n - p.cursor % n)) ≡ j + n = omega arith in e)
        ∙ add-mod_right j n
        ∙ mod-eq_of_lt h

usable_at-get :
    (now : ℕ) (p : PoolInner) (j : ℕ) (e : KeyEntry)
    → get_elem? p.entries j ≡ some e
    → is_usable now e ≡ true
    → usable_at now p j ≡ true
usable_at-get now p j e found usable = rw (found, usable_at) usable

-- The three outcomes of a call: no entry is usable and nothing changes; the preferred entry is
-- usable and is taken, the cursor left alone; or the preferred entry is missing or not usable, and
-- the first usable entry from the cursor on is taken and the cursor moved past it.
abbrev pub Acquired : ℕ → Option ℕ → PoolInner → Option KeySlot × PoolInner → Type 0
Acquired now preferred p r =
    ((r ≡ (none, p)) × ((j : ℕ) → usable_at now p j ≡ false))
    ⊎ ((idx : ℕ) × (e : KeyEntry) × (preferred ≡ some idx)
        × (get_elem? p.entries idx ≡ some e)
        × (is_usable now e ≡ true)
        × (r ≡ (some (slot idx e), record p { entries = set p.entries idx (revive e) })))
    ⊎ ((k : ℕ) × (e : KeyEntry) × (k < length p.entries)
        × ((idx : ℕ) → preferred ≡ some idx → usable_at now p idx ≡ false)
        × (get_elem? p.entries (probe p k) ≡ some e)
        × (is_usable now e ≡ true)
        × (r ≡ taken p (probe p k) e)
        × ((j : ℕ) → j < k → usable_at now p (probe p j) ≡ false))

none_usable :
    (now : ℕ) (p : PoolInner)
    → ((k : ℕ) → 0 ≤ k → k < length p.entries → usable_at now p (probe p k) ≡ false)
    → (j : ℕ) → usable_at now p j ≡ false
none_usable now p h j = elim (Option-cases (get_elem? p.entries j)) [
  | inl missing ↦ rw (missing, usable_at)
  | inr (e, found) ↦
      let (k, lt, at) = probe-onto p j (lt_of_get_elem? p.entries j e found) in
      rw (← at) (h k (omega arith) lt)
]

from_scan :
    (now : ℕ) (preferred : Option ℕ) (p : PoolInner) (r : Option KeySlot × PoolInner)
    → ((idx : ℕ) → preferred ≡ some idx → usable_at now p idx ≡ false)
    → Scanned now p 0 r
    → Acquired now preferred p r
from_scan now preferred p r skipped (inl (e, h)) = inl (e, none_usable now p h)
from_scan now preferred p r skipped (inr (k, e, _, lt, found, usable, q, before)) =
    inr (inr (k, e, lt, skipped, found, usable, q, λ j. before j (omega arith)))

preferred-cases :
    (now : ℕ) (preferred : Option ℕ) (p : PoolInner)
    → ((try_preferred now preferred p ≡ none)
        × ((idx : ℕ) → preferred ≡ some idx → usable_at now p idx ≡ false))
      ⊎ ((idx : ℕ) × (e : KeyEntry) × (preferred ≡ some idx)
          × (get_elem? p.entries idx ≡ some e)
          × (is_usable now e ≡ true)
          × (try_preferred now preferred p
              ≡ some (slot idx e, record p { entries = set p.entries idx (revive e) })))
unfolding try_preferred
preferred-cases now none p = inl (refl, λ idx h. absurd (ground arith))
preferred-cases now (some idx) p = elim (Option-cases (get_elem? p.entries idx)) [
  | inl missing ↦ inl (
    rw (missing, try_preferred),
    λ j h. let e : idx ≡ j = ground arith in rw (← e, missing, usable_at),
  )
  | inr (e, found) ↦ elim (Bool-cases (is_usable now e)) [
    | inl usable ↦ inr (idx, e, refl, found, usable, rw (found, try_preferred, usable))
    | inr unusable ↦ inl (
      rw (found, try_preferred, unusable),
      λ j h. let q : idx ≡ j = ground arith in rw (← q, found, usable_at) unusable,
    )
  ]
]

acquire-empty :
    (now : ℕ) (preferred : Option ℕ) (p : PoolInner)
    → length p.entries ≡ 0
    → acquire now preferred p ≡ (none, p)
unfolding acquire
acquire-empty now preferred p h = rw (h, acquire)

acquire-preferred :
    (now : ℕ) (preferred : Option ℕ) (p : PoolInner) (n : ℕ) (s : KeySlot) (q : PoolInner)
    → length p.entries ≡ suc n
    → try_preferred now preferred p ≡ some (s, q)
    → acquire now preferred p ≡ (some s, q)
unfolding acquire
acquire-preferred now preferred p n s q h e = rw (h, acquire, e)

acquire-round_robin :
    (now : ℕ) (preferred : Option ℕ) (p : PoolInner) (n : ℕ)
    → length p.entries ≡ suc n
    → try_preferred now preferred p ≡ none
    → acquire now preferred p ≡ round_robin now (length p.entries) 0 p
unfolding acquire
acquire-round_robin now preferred p n h e = ground arith

-- Every call of `acquire` has exactly this outcome: if the preferred entry exists and is usable, it
-- is taken and the cursor stays; otherwise, if some entry is usable, the first one from the cursor
-- on, in cyclic order, is taken and the cursor moves past it; otherwise there is no key and the
-- pool does not change.
pub acquire-Acquired :
    (now : ℕ) (preferred : Option ℕ) (p : PoolInner)
    → Acquired now preferred p (acquire now preferred p)
acquire-Acquired now preferred p = by_size (length p.entries) refl
  where
    by_size : (n : ℕ) → length p.entries ≡ n → Acquired now preferred p (acquire now preferred p)
    by_size zero h =
        inl (acquire-empty now preferred p h, none_usable now p (λ k _ lt. absurd (omega arith)))
    by_size (suc n) h = elim (preferred-cases now preferred p) [
      | inl (e, skipped) ↦ rw (acquire-round_robin now preferred p n h e) (
          from_scan now preferred p _ skipped
            (round_robin-Scanned now p (length p.entries) 0 (omega arith)))
      | inr (idx, x, wanted, found, usable, e) ↦
          inr (inl (idx, x, wanted, found, usable, acquire-preferred now preferred p n _ _ h e))
    ]

-- There is no key exactly if no entry of the pool is usable.
pub acquire-none_iff :
    (now : ℕ) (preferred : Option ℕ) (p : PoolInner)
    → ((acquire now preferred p).0 ≡ none) ↔ ((j : ℕ) → usable_at now p j ≡ false)
acquire-none_iff now preferred p = elim (acquire-Acquired now preferred p) [
  | inl (e, h) ↦ (λ _. h, λ _. rw e)
  | inr (inl (idx, x, _, found, usable, e)) ↦ (
    λ h. absurd (let q : (acquire now preferred p).0 ≡ some (slot idx x) = rw e in cc),
    λ h. absurd (let q = usable_at-get now p idx x found usable in cc (h idx)),
  )
  | inr (inr (k, x, _, _, found, usable, e, _)) ↦ (
    λ h. absurd (let q : (acquire now preferred p).0 ≡ some (slot (probe p k) x) = rw e in cc),
    λ h. absurd (let q = usable_at-get now p (probe p k) x found usable in cc (h (probe p k))),
  )
]

-- The entry with an index, as a slot shows it.
abbrev pub Shows : ℕ → PoolInner → KeySlot → Type 0
Shows now p s =
    (e : KeyEntry) × (get_elem? p.entries s.index ≡ some e)
    × (is_usable now e ≡ true)
    × (s.key ≡ e.key)
    × (s.name ≡ e.name)

-- A slot that is handed out is in range, and carries the key and the name of an entry that was
-- usable at that moment.
pub acquire-Shows :
    (now : ℕ) (preferred : Option ℕ) (p : PoolInner) (s : KeySlot)
    → (acquire now preferred p).0 ≡ some s
    → Shows now p s
acquire-Shows now preferred p s h = elim (acquire-Acquired now preferred p) [
  | inl (e, _) ↦ absurd (let q : (acquire now preferred p).0 ≡ none = rw e in cc)
  | inr (inl (idx, x, _, found, usable, e)) ↦
      let q : slot idx x ≡ s = ground (arith, e) in
      subst (Shows now p) q (x, found, usable, refl, refl)
  | inr (inr (k, x, _, _, found, usable, e, _)) ↦
      let q : slot (probe p k) x ≡ s = ground (arith, e) in
      subst (Shows now p) q (x, found, usable, refl, refl)
]

-- The cursor is 0 or the index of an entry.
abbrev pub IsValid : PoolInner → Type 0
IsValid p = (p.cursor ≡ 0) ⊎ (p.cursor < length p.entries)

pub acquire-IsValid :
    (now : ℕ) (preferred : Option ℕ) (p : PoolInner)
    → IsValid p
    → IsValid (acquire now preferred p).1
acquire-IsValid now preferred p v = elim (acquire-Acquired now preferred p) [
  | inl (e, _) ↦ rw e v
  | inr (inl (idx, x, _, _, _, e)) ↦ rw (e, length-set) v
  | inr (inr (k, x, lt, _, _, _, e, _)) ↦ rw (e, length-set) (inr (omega arith))
]
