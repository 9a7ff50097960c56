-- ===== src/HandoffCache/Examples.antt =====
-- The handoff cache at concrete inputs, over a cache of lists: its theorem applied.
use mybro.HandoffCache.{Digest, CacheEntry, State, get, set, stats}
use mybro.HandoffCache.Expiry.{get-set}
use mybro.Lru.{Lru}
use mybro.Lru.Lists.{list_lru, lookup, delete, delete_all, drop_last, get as lru_get, modify, put}
use mybro.Prelude.{◌≡◌, some, [], ◌∷◌, codes_eq, codes_eq_sound, codes_eq_self}

program : Unit {0}
unfolding get set stats lookup delete delete_all drop_last lru_get modify put codes_eq
program = tt

abbrev lists : Lru Digest CacheEntry
lists = list_lru codes_eq codes_eq_sound codes_eq_self 49

abbrev empty : State lists
empty = record { inner = []; cap = 50; ttl = 1_000; hits = 0; misses = 0; evictions = 0 }

get-set_example :
    let r = get lists 900_000_000 (1 ∷ 2 ∷ []) (set lists 0 (1 ∷ 2 ∷ []) "a cat" empty) in
    (r.0 ≡ some "a cat")
    × (r.1.hits ≡ 1)
    × (r.1.misses ≡ 0)
    × (lists.lookup (1 ∷ 2 ∷ []) r.1.inner ≡ some (record { desc = "a cat"; inserted = 0 }))
unfolding codes_eq lookup delete lru_get put
get-set_example = get-set lists 0 900_000_000 (1 ∷ 2 ∷ []) "a cat" empty
