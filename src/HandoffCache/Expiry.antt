-- ===== src/HandoffCache/Expiry.antt =====
-- What a lookup gives after an insertion, and how the counters count.
use mybro.HandoffCache.{Digest, CacheEntry, bump, State, is_live, get, set}
use mybro.Lru.{Lru}
use mybro.Prelude.{
  ℕ, ◌-◌, ◌*◌, ◌≡◌, refl, ◌∙◌, String, true, false, none, some, Bool-cases, inl, inr, ltb, leb,
  if◌then◌else◌,
}

module _ (lru : Lru Digest CacheEntry) where
  stored :
      (inserted : ℕ) (digest : Digest) (desc : String) (st : State lru)
      → lru.lookup digest (set lru inserted digest desc st).inner
        ≡ some (record { desc = desc; inserted = inserted })
  unfolding set
  stored inserted digest desc st =
      lru.lookup-put_self digest (record { desc = desc; inserted = inserted })
        (if leb st.cap (lru.len st.inner) then lru.pop_lru st.inner else st.inner)

  -- A lookup as it goes once it is known what the cache holds.
  get-live :
      (now : ℕ) (digest : Digest) (e : CacheEntry) (st : State lru)
      → lru.lookup digest st.inner ≡ some e
      → is_live lru now st e ≡ true
      → get lru now digest st
        ≡ (some e.desc, record st { inner = (lru.get digest st.inner).1; hits = bump st.hits })
  unfolding get
  get-live now digest e st there live =
      let got : (lru.get digest st.inner).0 ≡ some e = lru.get-lookup digest st.inner ∙ there in
      rw (get, got, live) refl

  get-expired :
      (now : ℕ) (digest : Digest) (e : CacheEntry) (st : State lru)
      → lru.lookup digest st.inner ≡ some e
      → is_live lru now st e ≡ false
      → get lru now digest st ≡ (
        none,
        record st { inner = lru.pop digest (lru.get digest st.inner).1; misses = bump st.misses },
      )
  unfolding get
  get-expired now digest e st there old =
      let got : (lru.get digest st.inner).0 ≡ some e = lru.get-lookup digest st.inner ∙ there in
      rw (get, got, old) refl

  -- After an insertion, whatever was full and whatever was evicted, a lookup of the same digest gives
  -- the description as long as less than the time to live has passed, and counts a hit; afterwards
  -- it gives nothing, counts a miss, and the entry is gone.
  pub get-set :
      (inserted now : ℕ) (digest : Digest) (desc : String) (st : State lru)
      → let st' = set lru inserted digest desc st in
        let r = get lru now digest st' in
        let live = ltb (now - inserted) (st.ttl * 1_000_000) in
        (r.0 ≡ (if live then some desc else none))
        × (r.1.hits ≡ (if live then bump st.hits else st.hits))
        × (r.1.misses ≡ (if live then st.misses else bump st.misses))
        × (lru.lookup digest r.1.inner
            ≡ (if live then some (record { desc = desc; inserted = inserted }) else none))
  unfolding set
  get-set inserted now digest desc st =
      let st' = set lru inserted digest desc st in
      let there = stored inserted digest desc st in
      let e : CacheEntry = record { desc = desc; inserted = inserted } in
      elim (Bool-cases (ltb (now - inserted) (st.ttl * 1_000_000))) [
        | inl live ↦
            rw (get-live now digest e st' there live, live)
              (refl, refl, refl, lru.lookup-get digest digest st'.inner ∙ there)
        | inr old ↦
            rw (get-expired now digest e st' there old, old)
              (refl, refl, refl, lru.lookup-pop_self digest (lru.get digest st'.inner).1)
      ]
