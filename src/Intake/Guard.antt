-- ===== src/Intake/Guard.antt =====
-- What has to hold before anything is sent upstream.
use mybro.Access.{Headers, ApiFormat, open_ai, anthropic, check_auth}
use mybro.HandoffCache.{Digest, CacheEntry}
use mybro.Intake.{
  Crates, Outcome, Shared, Analysts, max_body_size, read_body_limited, chat_intake, messages_intake,
}
use mybro.Intake.Sent.{sent_of}
use mybro.Json.{Value}
use mybro.KeyPool.{total}
use mybro.Lru.{Lru}
use mybro.Prelude.{
  ℕ, ◌≡◌, ◌⊎◌, ◌≤◌, refl, inl, inr, String, Bool, true, false, not, Option, none, some, List,
  length, ltb, ◌==◌, Bool-cases, Option-cases, arith,
}
use mybro.Sessions.{Session}
use mybro.Vision.Handoff.{Parsed, parse_error, parsed}

-- A body that was read is the one that arrived, within the limit.
abbrev Within : Option (List ℕ) → Type 0
Within body = (bytes : List ℕ) × (body ≡ some bytes) × (length bytes ≤ max_body_size)

read_body_limited-Within :
    (body : Option (List ℕ)) (bytes : List ℕ) → read_body_limited body ≡ some bytes → Within body
unfolding read_body_limited
read_body_limited-Within none bytes h = absurd (ground arith)
read_body_limited-Within (some bs) bytes h = elim (Bool-cases (ltb max_body_size (length bs))) [
  | inl e ↦ absurd (let q : none ≡ some bytes = rw (read_body_limited, e) at h in ground arith)
  | inr e ↦ (bs, refl, ground arith)
]

of_not : (b : Bool) → not b ≡ false → b ≡ true
of_not true h = refl
of_not false h = absurd (ground arith)

Parsed-cases : (p : Parsed) → ((e : String) × (p ≡ parse_error e)) ⊎ ((v : Value) × (p ≡ parsed v))
Parsed-cases (parse_error e) = inl (e, refl)
Parsed-cases (parsed v) = inr (v, refl)

module _ (crates : Crates) (lru : Lru Digest CacheEntry) (sessions : Lru String Session) where
  -- The pipeline for a format.
  abbrev pub intake :
      ApiFormat
      → Headers
      → Option (List ℕ)
      → Bool
      → ℕ
      → Analysts crates lru sessions
      → Shared crates lru sessions
      → Outcome × Shared crates lru sessions
  intake open_ai = chat_intake crates lru sessions
  intake anthropic = messages_intake crates lru sessions

  abbrev Guarded : Headers → Option (List ℕ) → Bool → Shared crates lru sessions → Type 0
  Guarded headers body admitted st =
      (check_auth crates.ct_eq st.config headers ≡ true) × Within body × (admitted ≡ true)

  chat_intake-Guarded :
      (headers : Headers) (body : Option (List ℕ)) (admitted : Bool) (now : ℕ)
      (analysts : Analysts crates lru sessions) (st : Shared crates lru sessions)
      (sent : Value × String)
      → sent_of (chat_intake crates lru sessions headers body admitted now analysts st).0
        ≡ some sent
      → Guarded headers body admitted st
  unfolding chat_intake
  chat_intake-Guarded headers body admitted now analysts st sent h =
      elim (Bool-cases (not (check_auth crates.ct_eq st.config headers))) [
        | inl e ↦ absurd (let q : none ≡ some sent = rw (chat_intake, e) at h in ground arith)
        | inr e ↦ elim (Option-cases (read_body_limited body)) [
          | inl f ↦ absurd (let q : none ≡ some sent = rw (chat_intake, e, f) at h in ground arith)
          | inr (bytes, f) ↦ elim (Parsed-cases (crates.from_slice bytes)) [
            | inl (t, g) ↦
                absurd (let q : none ≡ some sent = rw (chat_intake, e, f, g) at h in ground arith)
            | inr (payload, g) ↦ elim (Bool-cases (not admitted)) [
              | inl k ↦
                  absurd
                    (let q : none ≡ some sent = rw (chat_intake, e, f, g, k) at h in ground arith)
              | inr k ↦ (
                of_not (check_auth crates.ct_eq st.config headers) e,
                read_body_limited-Within body bytes f,
                of_not admitted k,
              )
            ]
          ]
        ]
      ]

  messages_intake-Guarded :
      (headers : Headers) (body : Option (List ℕ)) (admitted : Bool) (now : ℕ)
      (analysts : Analysts crates lru sessions) (st : Shared crates lru sessions)
      (sent : Value × String)
      → sent_of (messages_intake crates lru sessions headers body admitted now analysts st).0
        ≡ some sent
      → Guarded headers body admitted st
  unfolding messages_intake
  messages_intake-Guarded headers body admitted now analysts st sent h =
      elim (Bool-cases (not (check_auth crates.ct_eq st.config headers))) [
        | inl e ↦ absurd (let q : none ≡ some sent = rw (messages_intake, e) at h in ground arith)
        | inr e ↦ elim (Option-cases (read_body_limited body)) [
          | inl f ↦
              absurd (let q : none ≡ some sent = rw (messages_intake, e, f) at h in ground arith)
          | inr (bytes, f) ↦ elim (Parsed-cases (crates.from_slice bytes)) [
            | inl (t, g) ↦
                absurd
                  (let q : none ≡ some sent = rw (messages_intake, e, f, g) at h in ground arith)
            | inr (payload, g) ↦ elim (Bool-cases (total st.pool == 0)) [
              | inl k ↦
                  absurd (
                    let q : none ≡ some sent = rw (messages_intake, e, f, g, k) at h in
                    ground arith)
              | inr k ↦ elim (Bool-cases (not admitted)) [
                | inl m ↦ absurd (
                    let q : none ≡ some sent = rw (messages_intake, e, f, g, k, m) at h in
                    ground arith)
                | inr m ↦ (
                  of_not (check_auth crates.ct_eq st.config headers) e,
                  read_body_limited-Within body bytes f,
                  of_not admitted m,
                )
              ]
            ]
          ]
        ]
      ]

  -- In both pipelines, nothing is sent upstream unless the request is authorized, its body arrived whole
  -- and has at most 5 MiB, and the gate has admitted it.
  pub intake-guarded :
      (format : ApiFormat) (headers : Headers) (body : Option (List ℕ)) (admitted : Bool) (now : ℕ)
      (analysts : Analysts crates lru sessions) (st : Shared crates lru sessions)
      (sent : Value × String)
      → sent_of (intake format headers body admitted now analysts st).0 ≡ some sent
      → (check_auth crates.ct_eq st.config headers ≡ true)
        × ((bytes : List ℕ) × (body ≡ some bytes) × (length bytes ≤ max_body_size))
        × (admitted ≡ true)
  intake-guarded open_ai headers body admitted now analysts st sent h =
      chat_intake-Guarded headers body admitted now analysts st sent h
  intake-guarded anthropic headers body admitted now analysts st sent h =
      messages_intake-Guarded headers body admitted now analysts st sent h
