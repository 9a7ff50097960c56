-- ===== src/Routes/Chat.antt =====
-- src/routes/chat.rs: the retry loop of the OpenAI pipeline, from the first upstream call on.
use mybro.Prelude.{
  ℕ, zero, suc, ◌+◌, ◌-◌, ◌*◌, String, str_append, ◌&&◌, ◌||◌, none, some, List, [], ◌∷◌, ◌++◌, ltb,
  ◌==◌, if◌then◌else◌,
}
use mybro.KeyPool.{KeySlot, PoolInner, acquire, total, mark_healthy, mark_unhealthy}
use mybro.Routes.{
  UpstreamResponse, Answer, response, transport, Effect, called, logged, throttled, recorded, slept,
  Reply, streaming, json_body, sse_text, error_body, passed_on, bad_gateway, exhausted, Env, Job,
  elapsed_ms, is_success, is_sse, or_empty, record_stat, stream_record, read_error_body,
}
use mybro.UsageParse.{no_usage, extract_usage}

abbrev pub max_retries : ℕ
max_retries = 10

-- From the second attempt on, and with several keys, another key where there is a usable one.
unfoldable pub pick_slot : ℕ → ℕ → KeySlot → PoolInner → KeySlot × PoolInner
unfolding total
pick_slot attempt now current pool =
    if ltb 1 attempt && ltb 1 (total pool)
    then elim (acquire now none pool).0 [
      | some s ↦ (s, (acquire now none pool).1)
      | none ↦ (current, (acquire now none pool).1)
    ]
    else (current, pool)

unfoldable pub delay_ms : ℕ → ℕ
delay_ms attempt = 3000 + 3000 * (attempt - 1)

-- Does the round end the loop?
pub data Verdict : Type 0 where
  finished : Reply → Verdict
  again : ℕ → Verdict

pub record Round : Type 0 where
  pub verdict : Verdict
  pub effects : List Effect
  pub pool : PoolInner
  pub now : ℕ

unfoldable pub wrap_json_as_sse : Env → List ℕ → String
wrap_json_as_sse env body =
    str_append (str_append (str_append "data: " (env.from_utf8_lossy body)) "\n\n")
      "data: [DONE]\n\n"

-- A response with a status of success; `now` is the arrival of its head, `start` the upstream call.
unfoldable pub succeed : Env → Job → KeySlot → ℕ → ℕ → UpstreamResponse → PoolInner → Round
succeed env job slot start now r pool =
    let pool' = mark_healthy slot.index pool in
    if is_sse r
    then record {
      verdict = finished (streaming 200 (stream_record env now job "openai" slot.name) start);
      effects = [];
      pool = pool';
      now = now;
    }
    else let body = or_empty r.body in
      let done = now + r.body_after in
      record {
        verdict =
            finished
              (if job.is_stream then sse_text (wrap_json_as_sse env body) else json_body body);
        effects =
            recorded (
              record_stat env done job (some (elapsed_ms done start)) 200 "openai" slot.name
                (extract_usage env.from_str env.from_slice body) none)
            ∷ [];
        pool = pool';
        now = done;
      }

-- A response with status 500 or 503.
unfoldable pub retry_status : Env → Job → ℕ → KeySlot → ℕ → UpstreamResponse → PoolInner → Round
retry_status env job attempt slot now r pool =
    let last_error_body = read_error_body env r in
    let done = now + r.body_after in
    let pool' = mark_unhealthy done slot.index r.status pool in
    let log = logged attempt r.status last_error_body in
    if attempt == max_retries
    then record {
      verdict = finished (error_body r.status last_error_body);
      effects =
          log ∷ (if r.status == 503 then throttled ∷ [] else [])
          ++ recorded (
              record_stat env done job none r.status "openai" slot.name no_usage
                (some last_error_body))
            ∷ [];
      pool = pool';
      now = done;
    }
    else record { verdict = again (delay_ms attempt); effects = log ∷ []; pool = pool'; now = done }

-- Any other response.
unfoldable pub pass_on : Env → Job → KeySlot → ℕ → UpstreamResponse → PoolInner → Round
pass_on env job slot now r pool =
    let done = now + r.body_after in
    record {
      verdict = finished (passed_on r.status r.headers (or_empty r.body));
      effects =
          (if r.status == 429 then throttled ∷ [] else [])
          ++ recorded (record_stat env done job none r.status "openai" slot.name no_usage none)
            ∷ [];
      pool = pool;
      now = done;
    }

-- No response.
unfoldable pub retry_transport : Env → Job → ℕ → KeySlot → ℕ → String → PoolInner → Round
retry_transport env job attempt slot now e pool =
    let pool' = mark_unhealthy now slot.index 502 pool in
    let log = logged attempt 502 e in
    if attempt == max_retries
    then record {
      verdict = finished (bad_gateway (str_append "Upstream error: " e));
      effects =
          log
          ∷ recorded (record_stat env now job none 502 "openai" slot.name no_usage (some e))
          ∷ [];
      pool = pool';
      now = now;
    }
    else record { verdict = again (delay_ms attempt); effects = log ∷ []; pool = pool'; now = now }

unfoldable pub settle : Env → Job → ℕ → KeySlot → ℕ → ℕ → Answer → PoolInner → Round
settle env job attempt slot start now answer pool = elim answer [
  | response r ↦
      if is_success r.status
      then succeed env job slot start now r pool
      else if r.status == 500 || r.status == 503
      then retry_status env job attempt slot now r pool
      else pass_on env job slot now r pool
  | transport e ↦ retry_transport env job attempt slot now e pool
]

pub record Outcome : Type 0 where
  pub reply : Reply
  pub effects : List Effect
  pub pool : PoolInner

-- After a round: its reply, or a sleep and the rest of the loop.
unfoldable pub conclude :
    String → Answer → Verdict → List Effect → PoolInner → (ℕ → Outcome) → Outcome
conclude key answer (finished reply) effects pool rest = record {
  reply = reply;
  effects = called key answer ∷ effects;
  pool = pool;
}
conclude key answer (again delay) effects pool rest = record {
  reply = (rest delay).reply;
  effects = called key answer ∷ effects ++ slept delay ∷ (rest delay).effects;
  pool = (rest delay).pool;
}

-- `for attempt in 1..=max_retries`, with the number of attempts left, and what follows the loop.
unfoldable pub attempts : Env → Job → ℕ → ℕ → KeySlot → ℕ → PoolInner → Outcome
attempts env job zero attempt slot now pool = record {
  reply = exhausted;
  effects =
      recorded (
        record_stat env now job none 500 "openai" slot.name no_usage (some "max retries exhausted"))
      ∷ [];
  pool = pool;
}
attempts env job (suc left) attempt slot now pool =
    let picked = pick_slot attempt now slot pool in
    let asked = env.upstream picked.0.key now in
    let arrived = now + asked.1 in
    let round = settle env job attempt picked.0 now arrived asked.0 (env.others arrived picked.1) in
    let woken = λ (delay : ℕ). round.now + delay * 1_000_000 in
    let rest = λ (delay : ℕ).
      attempts env job left (attempt + 1) picked.0 (woken delay)
        (env.others (woken delay) round.pool) in
    conclude picked.0.key asked.0 round.verdict round.effects round.pool rest

unfoldable pub retry_loop : Env → Job → KeySlot → ℕ → PoolInner → Outcome
retry_loop env job slot now pool = attempts env job max_retries 1 slot now pool
