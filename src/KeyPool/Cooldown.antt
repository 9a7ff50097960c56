-- ===== src/KeyPool/Cooldown.antt =====
-- Unhealthy keys: how long a key stays out, and what the health report says of it.
use mybro.Prelude.{
  ℕ, ◌+◌, ◌-◌, ◌*◌, ◌^◌, ◌≤◌, ◌<◌, ◌≡◌, ◌≢◌, inl, inr, Bool, true, false, not, ◌&&◌, Option, some,
  List, [], ◌∷◌, length, filter, get_elem?, get_elem?-set_self, get_elem?-set_ne, lt_of_get_elem?,
  is_empty, Bool-cases, Option-cases, leb, ◌==◌, if◌then◌else◌, arith,
}
use mybro.KeyPool.{
  KeyEntry, KeySlot, PoolInner, active, cooling, absent, KeyState, is_usable, is_past_cooldown,
  cooldown_for_status, mark_unhealthy, mark_healthy, acquire, state, entry_states, entry_state,
  entry_status, remaining_ms, healthy_count,
}
use mybro.KeyPool.Scan.{usable_at}
use mybro.KeyPool.Acquire.{Shows, acquire-Shows}

-- What a key that failed at `t` with `status` can be used for: nothing until its cooldown is over.
usable_at-mark_unhealthy :
    (now t idx status : ℕ) (p : PoolInner) (e : KeyEntry)
    → get_elem? p.entries idx ≡ some e
    → usable_at now (mark_unhealthy t idx status p) idx
      ≡ (not (is_empty e.key) && leb (cooldown_for_status status) (now - t))
unfolding mark_unhealthy is_usable is_past_cooldown
usable_at-mark_unhealthy now t idx status p e found =
    rw (found, mark_unhealthy)
      (rw (get_elem?-set_self p.entries idx _ (lt_of_get_elem? p.entries idx e found), usable_at))

usable_at-mark_unhealthy_ne :
    (now t idx status j : ℕ) (p : PoolInner)
    → idx ≢ j
    → usable_at now (mark_unhealthy t idx status p) j ≡ usable_at now p j
unfolding mark_unhealthy
usable_at-mark_unhealthy_ne now t idx status j p h = elim (Option-cases (get_elem? p.entries idx)) [
  | inl missing ↦ rw (missing, mark_unhealthy)
  | inr (e, found) ↦
      rw (found, mark_unhealthy) (rw (usable_at, get_elem?-set_ne p.entries idx j _ h))
]

-- After a failure at time `t`, the key can be used exactly if it is not empty and the cooldown of
-- the status has passed; every other entry is as usable as it was.
pub mark_unhealthy-usable :
    (now t idx status j : ℕ) (p : PoolInner) (e : KeyEntry)
    → get_elem? p.entries idx ≡ some e
    → usable_at now (mark_unhealthy t idx status p) j ≡ (
        if idx == j
        then not (is_empty e.key) && leb (cooldown_for_status status) (now - t)
        else usable_at now p j)
mark_unhealthy-usable now t idx status j p e found = elim (Bool-cases (idx == j)) [
  | inl same ↦
      let q : idx ≡ j = ground arith in
      rw (same, ← q) (usable_at-mark_unhealthy now t idx status p e found)
  | inr other ↦ rw other (usable_at-mark_unhealthy_ne now t idx status j p (λ q. ground arith))
]

mark_unhealthy-cooling :
    (now t idx status : ℕ) (p : PoolInner)
    → now - t < cooldown_for_status status
    → usable_at now (mark_unhealthy t idx status p) idx ≡ false
unfolding mark_unhealthy
mark_unhealthy-cooling now t idx status p early = elim (Option-cases (get_elem? p.entries idx)) [
  | inl missing ↦ rw (missing, mark_unhealthy) (rw (missing, usable_at))
  | inr (e, found) ↦
      let late : leb (cooldown_for_status status) (now - t) ≡ false = ground arith in
      ground (arith, usable_at-mark_unhealthy now t idx status p e found)
]

Shows-usable_at :
    (now : ℕ) (p : PoolInner) (s : KeySlot) → Shows now p s → usable_at now p s.index ≡ true
Shows-usable_at now p s (x, found, usable, _, _) = rw (found, usable_at) usable

-- While the cooldown of a failed key runs, no call of `acquire` hands that key out, also when it is
-- the preferred one.
pub acquire-mark_unhealthy :
    (now t idx status : ℕ) (preferred : Option ℕ) (p : PoolInner) (s : KeySlot)
    → now - t < cooldown_for_status status
    → (acquire now preferred (mark_unhealthy t idx status p)).0 ≡ some s
    → s.index ≢ idx
acquire-mark_unhealthy now t idx status preferred p s early h same =
    let q = mark_unhealthy t idx status p in
    let usable = Shows-usable_at now q s (acquire-Shows now preferred q s h) in
    let cools = mark_unhealthy-cooling now t idx status p early in
    let at : usable_at now q idx ≡ true = rw same at usable in cc

-- A call of the client that succeeds makes a key with a text usable at once.
pub mark_healthy-usable :
    (now idx : ℕ) (p : PoolInner) (e : KeyEntry)
    → get_elem? p.entries idx ≡ some e
    → usable_at now (mark_healthy idx p) idx ≡ not (is_empty e.key)
unfolding mark_healthy is_usable
mark_healthy-usable now idx p e found =
    rw (found, mark_healthy)
      (rw (get_elem?-set_self p.entries idx _ (lt_of_get_elem? p.entries idx e found), usable_at)
        (ground arith))

abbrev is_active : KeyState → Bool
is_active k = elim k.status [ absent ↦ false | active ↦ true | cooling ↦ false ]

is_active-entry_state :
    (now : ℕ) (e : KeyEntry) (k : KeyState)
    → entry_state now e ≡ some k
    → is_active k ≡ is_usable now e
unfolding entry_state entry_status is_usable
is_active-entry_state now e k h = ground arith

entry_states-count :
    (now : ℕ) (es : List KeyEntry) (ks : List KeyState)
    → entry_states now es ≡ some ks
    → length (filter is_active ks) ≡ length (filter (is_usable now) es)
unfolding entry_states
entry_states-count now [] ks h = ground arith
entry_states-count now (e ∷ es) ks h = elim (Option-cases (entry_state now e)) [
  | inl panicked ↦ absurd (ground arith)
  | inr (k, shown) ↦ elim (Option-cases (entry_states now es)) [
    | inl panicked ↦ absurd (ground arith)
    | inr (rest, shown_rest) ↦
        let q : k ∷ rest ≡ ks = ground arith in
        rw (← q) (
          ground
            (arith, is_active-entry_state now e k shown, entry_states-count now es rest shown_rest))
  ]
]

-- The health report lists as active as many keys as the pool counts as healthy: the keys that a
-- call could get.
pub state-healthy_count :
    (now : ℕ) (p : PoolInner) (ks : List KeyState)
    → state now p ≡ some ks
    → length (filter is_active ks) ≡ healthy_count now p
unfolding state healthy_count
state-healthy_count now p ks h = entry_states-count now p.entries ks h

-- A key that is reported as cooling down stays unusable for the time that the report gives.
pub remaining_lower :
    (now d : ℕ) (e : KeyEntry) (r : ℕ)
    → e.cooldown < 2 ^ 64
    → ((t : ℕ) → e.last_error ≡ some t → t ≤ now)
    → entry_status now e ≡ (cooling, r)
    → d < r * 1_000_000
    → is_usable (now + d) e ≡ false
unfolding entry_status is_usable is_past_cooldown remaining_ms
remaining_lower now d e r small past h u = elim (Option-cases e.last_error) [
  | inl clean ↦ ground arith
  | inr (t, failed) ↦ ground (arith, past t)
]

-- It can be used at the latest one millisecond after that time.
pub remaining_upper :
    (now d : ℕ) (e : KeyEntry) (r : ℕ)
    → e.cooldown < 2 ^ 64
    → ((t : ℕ) → e.last_error ≡ some t → t ≤ now)
    → entry_status now e ≡ (cooling, r)
    → (r + 1) * 1_000_000 ≤ d
    → is_usable (now + d) e ≡ true
unfolding entry_status is_usable is_past_cooldown remaining_ms
remaining_upper now d e r small past h u = elim (Option-cases e.last_error) [
  | inl clean ↦ ground arith
  | inr (t, failed) ↦ ground (arith, past t)
]
