-- ===== src/Routes/Switch.antt =====
-- Which key the retry loop of src/routes/chat.rs tries next.
use mybro.KeyPool.{KeySlot, PoolInner, acquire, total, cooldown_for_status, mark_unhealthy}
use mybro.KeyPool.Acquire.{acquire-none_iff}
use mybro.KeyPool.Cooldown.{mark_unhealthy-usable, acquire-mark_unhealthy}
use mybro.KeyPool.Scan.{usable_at}
use mybro.Prelude.{
  ℕ, ◌-◌, ◌<◌, ◌≡◌, ◌≢◌, refl, true, false, none, some, length, length-set, get_elem?, get_elem?-lt,
  lt_of_get_elem?, Option-cases, inl, inr, ltb, ◌==◌, arith,
}
use mybro.Routes.Chat.{pick_slot}

usable_at-lt : (now : ℕ) (p : PoolInner) (j : ℕ) → usable_at now p j ≡ true → j < length p.entries
usable_at-lt now p j h = elim (Option-cases (get_elem? p.entries j)) [
  | inl e ↦ absurd (ground arith)
  | inr (x, e) ↦ lt_of_get_elem? p.entries j x e
]

total-mark_unhealthy :
    (t idx status : ℕ) (p : PoolInner) → total (mark_unhealthy t idx status p) ≡ length p.entries
unfolding total mark_unhealthy
total-mark_unhealthy t idx status p = elim (Option-cases (get_elem? p.entries idx)) [
  | inl e ↦ rw (mark_unhealthy, e) refl
  | inr (x, e) ↦
      rw (mark_unhealthy, e)
        (length-set p.entries idx (record x {
          healthy = false;
          last_error = some t;
          cooldown = cooldown_for_status status;
        }))
]

pick_slot-found :
    (attempt now : ℕ) (slot s : KeySlot) (p : PoolInner)
    → ltb 1 attempt ≡ true
    → ltb 1 (total p) ≡ true
    → (acquire now none p).0 ≡ some s
    → (pick_slot attempt now slot p).0 ≡ s
unfolding pick_slot total
pick_slot-found attempt now slot s p a b h = rw (pick_slot, a, b, h) refl

-- After an attempt has failed with a key, and while the cooldown that the failure gave it runs, the
-- next attempt takes another key, provided that some other key of the pool can be used.
pub pick_slot-mark_unhealthy :
    (attempt now t status j : ℕ) (slot : KeySlot) (p : PoolInner)
    → 1 < attempt
    → slot.index < length p.entries
    → now - t < cooldown_for_status status
    → usable_at now p j ≡ true
    → j ≢ slot.index
    → (pick_slot attempt now slot (mark_unhealthy t slot.index status p)).0.index ≢ slot.index
pick_slot-mark_unhealthy attempt now t status j slot p later here early usable other =
    let q = mark_unhealthy t slot.index status p in
    let (x, found) = get_elem?-lt p.entries slot.index here in
    let ne : (slot.index == j) ≡ false = ground arith in
    let still : usable_at now q j ≡ true =
      rw (mark_unhealthy-usable now t slot.index status j p x found, ne) usable in
    elim (Option-cases (acquire now none q).0) [
      | inl e ↦ absurd (let h = (acquire-none_iff now none q).0 e j in cc)
      | inr (s, e) ↦
          let lt = usable_at-lt now p j usable in
          let many : ltb 1 (total q) ≡ true =
            rw (total-mark_unhealthy t slot.index status p) (ground arith) in
          let a : ltb 1 attempt ≡ true = ground arith in
          rw (pick_slot-found attempt now slot s q a many e)
            (acquire-mark_unhealthy now t slot.index status none p s early e)
    ]
