-- ===== src/Routes/Messages.antt =====
-- src/routes/messages.rs: the Anthropic pipeline from its upstream call on. It has no retry loop.
use mybro.Prelude.{
  ℕ, ◌+◌, str_append, ◌≡◌, refl, Bool, true, ◌||◌, none, some, [], ◌∷◌, ◌++◌, leb, ◌==◌,
  if◌then◌else◌, Bool-cases, inl, inr,
}
use mybro.KeyPool.{KeySlot, PoolInner, mark_healthy, mark_unhealthy}
use mybro.Routes.{
  UpstreamResponse, Answer, response, transport, called, logged, throttled, recorded, streaming,
  passed_on, passed_text, bad_gateway, Env, Job, elapsed_ms, is_success, is_sse, or_empty,
  record_stat, stream_record, read_error_body,
}
use mybro.Routes.Chat.{Outcome}
use mybro.Routes.Trace.{records, one_record}
use mybro.Routes.Rounds.{eq_true}
use mybro.UsageParse.{no_usage, extract_usage}

unfoldable pub succeed : Env → Job → KeySlot → ℕ → ℕ → UpstreamResponse → PoolInner → Outcome
succeed env job slot start now r pool =
    let pool' = mark_healthy slot.index pool in
    if is_sse r
    then record {
      reply = streaming r.status (stream_record env now job "anthropic" slot.name) start;
      effects = [];
      pool = pool';
    }
    else let body = or_empty r.body in
      let done = now + r.body_after in
      record {
        reply = passed_on r.status r.headers body;
        effects =
            recorded (
              record_stat env done job (some (elapsed_ms done start)) r.status "anthropic" slot.name
                (extract_usage env.from_str env.from_slice body) none)
            ∷ [];
        pool = pool';
      }

unfoldable pub refuse : Env → Job → KeySlot → ℕ → UpstreamResponse → PoolInner → Outcome
refuse env job slot now r pool =
    let error_body = read_error_body env r in
    let done = now + r.body_after in
    record {
      reply = passed_text r.status r.headers error_body;
      effects =
          logged 1 r.status error_body
            ∷ (if r.status == 429 || r.status == 503 then throttled ∷ [] else [])
          ++ recorded (
              record_stat env done job none r.status "anthropic" slot.name no_usage
                (some error_body))
            ∷ [];
      pool = if r.status == 503 then mark_unhealthy done slot.index r.status pool else pool;
    }

unfoldable pub settle : Env → Job → KeySlot → ℕ → ℕ → Answer → PoolInner → Outcome
settle env job slot start now answer pool = elim answer [
  | response r ↦
      if is_success r.status
      then succeed env job slot start now r pool
      else if leb 400 r.status
      then refuse env job slot now r pool
      else record { reply = passed_on r.status [] (or_empty r.body); effects = []; pool = pool }
  | transport e ↦ record {
    reply = bad_gateway (str_append "Upstream error: " e);
    effects =
        logged 1 502 e
        ∷ recorded (record_stat env now job none 502 "anthropic" slot.name no_usage (some e))
        ∷ [];
    pool = mark_unhealthy now slot.index 502 pool;
  }
]

unfoldable pub upstream_call : Env → Job → KeySlot → ℕ → PoolInner → Outcome
upstream_call env job slot now pool =
    let asked = env.upstream slot.key now in
    let arrived = now + asked.1 in
    let o = settle env job slot now arrived asked.0 (env.others arrived pool) in
    record o { effects = called slot.key asked.0 ∷ o.effects }

-- Is the answer one that the statistics see: no response, success, or an error status?
abbrev pub counted : Answer → Bool
counted (response r) = is_success r.status || leb 400 r.status
counted (transport e) = true

settle-one_record :
    (env : Env) (job : Job) (slot : KeySlot) (start now : ℕ) (answer : Answer) (pool : PoolInner)
    → let o = settle env job slot start now answer pool in
      if counted answer
      then one_record o.reply (records o.effects) ≡ true
      else (records o.effects ≡ [])
unfolding settle succeed refuse record_stat
settle-one_record env job slot start now (transport e) pool = refl
settle-one_record env job slot start now (response r) pool =
    elim (Bool-cases (is_success r.status)) [
      | inl ok ↦ elim (Bool-cases (is_sse r)) [
        | inl e ↦ rw (ok, e) refl
        | inr e ↦ rw (ok, e, eq_true r.status) refl
      ]
      | inr bad ↦ elim (Bool-cases (leb 400 r.status)) [
        | inl big ↦ elim (Bool-cases (r.status == 429 || r.status == 503)) [
          | inl f ↦ rw (bad, big, f, eq_true r.status) refl
          | inr f ↦ rw (bad, big, f, eq_true r.status) refl
        ]
        | inr small ↦ rw (bad, small) refl
      ]
    ]

module _ (env : Env) (job : Job) (slot : KeySlot) (now : ℕ) (pool : PoolInner) where
  -- One call of the upstream leaves exactly one record with the status of the reply (with 502 where
  -- there was no response), or none yet for a stream, where there was no response, or one with a status
  -- of success or of at least 400; after any other status it leaves no record at all.
  pub upstream_call-one_record :
      let o = upstream_call env job slot now pool in
      if counted (env.upstream slot.key now).0
      then one_record o.reply (records o.effects) ≡ true
      else (records o.effects ≡ [])
  unfolding upstream_call
  upstream_call-one_record =
      let asked = env.upstream slot.key now in
      let arrived = now + asked.1 in
      settle-one_record env job slot now arrived asked.0 (env.others arrived pool)
