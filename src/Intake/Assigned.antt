-- ===== src/Intake/Assigned.antt =====
-- The key that a conversation keeps.
use mybro.HandoffCache.{Digest, CacheEntry}
use mybro.Intake.{Crates}
use mybro.Json.{Value}
use mybro.Lru.{Lru}
use mybro.Payload.{fingerprint_payload}
use mybro.Prelude.{String}
use mybro.Sessions
use mybro.Sessions.{Session}

module _ (crates : Crates) (lru : Lru Digest CacheEntry) (sessions : Lru String Session) where
  abbrev conversation : Value → String
  conversation payload = fingerprint_payload crates.md5_hex payload
