-- ===== src/Routes/Rounds.antt =====
-- What one attempt of the retry loop of src/routes/chat.rs leaves behind.
use mybro.Prelude.{
  ℕ, ◌≡◌, ◌≢◌, refl, String, true, false, ◌||◌, List, [], ◌∷◌, Bool-cases, inl, inr, ◌==◌, arith,
}
use mybro.KeyPool.{KeySlot, PoolInner}
use mybro.Routes.{
  UpstreamResponse, Answer, response, transport, Effect, Env, Job, is_success, is_sse, record_stat,
  stream_record,
}
use mybro.Routes.Chat.{
  max_retries, delay_ms, Verdict, finished, again, Round, succeed, retry_status, pass_on,
  retry_transport, settle,
}
use mybro.Routes.Trace.{records, calls, sleeps, retryable, one_record, retried}

-- What a round leaves behind, by its verdict.
unfoldable pub VerdictOk : ℕ → Answer → Verdict → List Effect → Type 0
VerdictOk attempt answer (finished reply) es =
    (one_record reply (records es) ≡ true) × (retried attempt (answer ∷ []) ≡ true)
VerdictOk attempt answer (again delay) es =
    (delay ≡ delay_ms attempt)
    × (retryable answer ≡ true)
    × (attempt ≢ max_retries)
    × (records es ≡ [])

unfoldable pub RoundOk : ℕ → Answer → Round → Type 0
unfolding VerdictOk
RoundOk attempt answer r =
    VerdictOk attempt answer r.verdict r.effects × (calls r.effects ≡ []) × (sleeps r.effects ≡ [])

pub eq_true : (n : ℕ) → (n == n) ≡ true
eq_true n = ground arith

succeed-RoundOk :
    (env : Env) (job : Job) (attempt : ℕ) (slot : KeySlot) (start now : ℕ) (r : UpstreamResponse)
    (pool : PoolInner)
    → is_success r.status ≡ true
    → RoundOk attempt (response r) (succeed env job slot start now r pool)
unfolding RoundOk VerdictOk succeed record_stat stream_record
succeed-RoundOk env job attempt slot start now r pool ok =
    let no : retryable (response r) ≡ false = ground arith in
    elim (Bool-cases (is_sse r)) [
      | inl e ↦ rw (e, no) ((refl, refl), refl, refl)
      | inr e ↦ elim (Bool-cases job.is_stream) [
        | inl f ↦ rw (e, f, no) ((refl, refl), refl, refl)
        | inr f ↦ rw (e, f, no) ((refl, refl), refl, refl)
      ]
    ]

pass_on-RoundOk :
    (env : Env) (job : Job) (attempt : ℕ) (slot : KeySlot) (now : ℕ) (r : UpstreamResponse)
    (pool : PoolInner)
    → (r.status == 500 || r.status == 503) ≡ false
    → RoundOk attempt (response r) (pass_on env job slot now r pool)
unfolding RoundOk VerdictOk pass_on record_stat
pass_on-RoundOk env job attempt slot now r pool plain = elim (Bool-cases (r.status == 429)) [
  | inl f ↦ rw (f, plain, eq_true r.status) ((refl, refl), refl, refl)
  | inr f ↦ rw (f, plain, eq_true r.status) ((refl, refl), refl, refl)
]

retry_status-RoundOk :
    (env : Env) (job : Job) (attempt : ℕ) (slot : KeySlot) (now : ℕ) (r : UpstreamResponse)
    (pool : PoolInner)
    → (r.status == 500 || r.status == 503) ≡ true
    → RoundOk attempt (response r) (retry_status env job attempt slot now r pool)
unfolding RoundOk VerdictOk retry_status record_stat
retry_status-RoundOk env job attempt slot now r pool busy =
    elim (Bool-cases (attempt == max_retries)) [
      | inl last ↦ elim (Bool-cases (r.status == 503)) [
        | inl f ↦ rw (last, f, eq_true r.status) ((refl, ground arith), refl, refl)
        | inr f ↦ rw (last, f, eq_true r.status) ((refl, ground arith), refl, refl)
      ]
      | inr early ↦
          let ne : attempt ≢ max_retries = ground arith in
          rw (early, busy) ((refl, refl, ne, refl), refl, refl)
    ]

retry_transport-RoundOk :
    (env : Env) (job : Job) (attempt : ℕ) (slot : KeySlot) (now : ℕ) (e : String) (pool : PoolInner)
    → RoundOk attempt (transport e) (retry_transport env job attempt slot now e pool)
unfolding RoundOk VerdictOk retry_transport record_stat
retry_transport-RoundOk env job attempt slot now e pool =
    elim (Bool-cases (attempt == max_retries)) [
      | inl last ↦ rw last ((refl, last), refl, refl)
      | inr early ↦
          let ne : attempt ≢ max_retries = ground arith in
          rw early ((refl, refl, ne, refl), refl, refl)
    ]

pub settle-RoundOk :
    (env : Env) (job : Job) (attempt : ℕ) (slot : KeySlot) (start now : ℕ) (answer : Answer)
    (pool : PoolInner)
    → RoundOk attempt answer (settle env job attempt slot start now answer pool)
unfolding settle
settle-RoundOk env job attempt slot start now (transport e) pool =
    retry_transport-RoundOk env job attempt slot now e pool
settle-RoundOk env job attempt slot start now (response r) pool =
    elim (Bool-cases (is_success r.status)) [
      | inl ok ↦ rw ok (succeed-RoundOk env job attempt slot start now r pool ok)
      | inr bad ↦ elim (Bool-cases (r.status == 500 || r.status == 503)) [
        | inl busy ↦ rw (bad, busy) (retry_status-RoundOk env job attempt slot now r pool busy)
        | inr plain ↦ rw (bad, plain) (pass_on-RoundOk env job attempt slot now r pool plain)
      ]
    ]
