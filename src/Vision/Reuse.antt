-- ===== src/Vision/Reuse.antt =====
-- An image that was described before.
use mybro.HandoffCache.{Digest, CacheEntry, set as set_entry, get as get_entry}
use mybro.HandoffCache.Expiry.{get-set}
use mybro.Lru.{Lru}
use mybro.Prelude.{
  ℕ, ◌-◌, ◌*◌, ◌≡◌, refl, ap, ◌∙◌, String, true, none, some, List, set, ltb, if◌then◌else◌,
}
use mybro.Vision.{ImageRef}
use mybro.Vision.Handoff.{Heard, Parsed, described, conclude, Analyses, look, hear}

module _ (lru : Lru Digest CacheEntry) (sha256 : String → Digest) (from_slice : List ℕ → Parsed)
    (status_text : ℕ → String) where
  -- After an answer that reads as a response has described an image, an image with the same data that looks
  -- into the cache right after it, within the time to live, has the same description at once, without a request.
  look-hear :
      (i j then_at now : ℕ) (img other : ImageRef) (answer : Heard)
      (a : Analyses lru sha256 from_slice status_text)
      → other.data_uri ≡ img.data_uri
      → (conclude lru sha256 from_slice status_text answer).1 ≡ true
      → ltb (now - then_at) (a.cache.ttl * 1_000_000) ≡ true
      → let d = (conclude lru sha256 from_slice status_text answer).0 in
        (look lru sha256 from_slice status_text true now j other
          (hear lru sha256 from_slice status_text true then_at i img answer a)).progress
        ≡ set (set a.progress i (described d)) j (described d)
  unfolding look hear
  look-hear i j then_at now img other answer a same stored live =
      let d = (conclude lru sha256 from_slice status_text answer).0 in
      let hit : (get_entry lru now (sha256 img.data_uri)
            (set_entry lru then_at (sha256 img.data_uri) d a.cache)).0
          ≡ some d =
        (get-set lru then_at now (sha256 img.data_uri) d a.cache).0
        ∙ ap (λ b. if b then some d else none) live in
      rw (look, hear, same, stored, hit) refl
