-- ===== src/HandoffCache.antt =====
-- src/handoff_cache.rs: image descriptions by digest, with a time to live.
-- Instants are nanoseconds; a call reads the clock once, as its argument `now`. The counters are
-- atomics that only count, and wrap at 2^64.
pub mod Expiry
mod Examples
use mybro.Lru.{Lru}
use mybro.Prelude.{
  ℕ, ◌+◌, ◌-◌, ◌*◌, ◌/◌, ◌%◌, ◌^◌, String, Bool, true, false, ◌&&◌, Option, none, some, List, [],
  ◌∷◌, ltb, leb, ◌==◌, if◌then◌else◌,
}

-- A digest is its 32 bytes.
abbrev pub Digest : Type 0
Digest = List ℕ

pub record CacheEntry : Type 0 where
  pub desc : String
  pub inserted : ℕ

-- `fetch_add(1)`.
abbrev pub bump : ℕ → ℕ
bump n = (n + 1) % 2 ^ 64

module _ (lru : Lru Digest CacheEntry) where
  pub record State : Type 0 where
    pub inner : lru.Cache
    pub cap : ℕ
    pub ttl : ℕ
    pub hits : ℕ
    pub misses : ℕ
    pub evictions : ℕ

  -- `NonZeroUsize::new(max_size).unwrap_or_else(50)`, and `ttl.as_millis() as u64`.
  abbrev pub cap_of : ℕ → ℕ
  cap_of max_size = if max_size == 0 then 50 else max_size

  abbrev pub as_millis : ℕ → ℕ
  as_millis ttl = (ttl / 1_000_000) % 2 ^ 64

  unfoldable pub new : ℕ → ℕ → State
  new max_size ttl = record {
    inner = lru.create (cap_of max_size);
    cap = cap_of max_size;
    ttl = as_millis ttl;
    hits = 0;
    misses = 0;
    evictions = 0;
  }

  unfoldable pub resize : ℕ → ℕ → State → State
  resize max_size ttl st = record st {
    inner = lru.resize (cap_of max_size) st.inner;
    cap = cap_of max_size;
    ttl = as_millis ttl;
  }

  -- `ttl` holds milliseconds.
  abbrev pub is_live : ℕ → State → CacheEntry → Bool
  is_live now st e = ltb (now - e.inserted) (st.ttl * 1_000_000)

  unfoldable pub get : ℕ → Digest → State → Option String × State
  get now digest st = elim (lru.get digest st.inner).0 [
    | none ↦ (none, record st { inner = (lru.get digest st.inner).1; misses = bump st.misses })
    | some e ↦
        if is_live now st e
        then (some e.desc, record st { inner = (lru.get digest st.inner).1; hits = bump st.hits })
        else (
          none,
          record st { inner = lru.pop digest (lru.get digest st.inner).1; misses = bump st.misses },
        )
  ]

  -- `pop_lru().is_some()` where there is an entry to remove.
  unfoldable pub set : ℕ → Digest → String → State → State
  set now digest desc st =
      let full = leb st.cap (lru.len st.inner) in
      let entry : CacheEntry = record { desc = desc; inserted = now } in
      record st {
        inner = lru.put digest entry (if full then lru.pop_lru st.inner else st.inner);
        evictions = if full && ltb 0 (lru.len st.inner) then bump st.evictions else st.evictions;
      }

  pub record HandoffCacheStats : Type 0 where
    pub size : ℕ
    pub max_size : ℕ
    pub ttl_ms : ℕ
    pub hits : ℕ
    pub misses : ℕ
    pub evictions : ℕ

  unfoldable pub stats : State → HandoffCacheStats
  stats st = record {
    size = lru.len st.inner;
    max_size = st.cap;
    ttl_ms = st.ttl;
    hits = st.hits;
    misses = st.misses;
    evictions = st.evictions;
  }
