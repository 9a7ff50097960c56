-- ===== src/Routes/Retry.antt =====
-- What the retry loop of src/routes/chat.rs calls, waits for and records.
use mybro.Prelude.{
  ℕ, zero, suc, ◌+◌, ◌-◌, ◌*◌, ◌≤◌, ◌≡◌, ◌≢◌, refl, ap, ◌∙◌, String, true, List, [], ◌∷◌, ◌++◌,
  length, total, arith,
}
use mybro.KeyPool.{KeySlot, PoolInner}
use mybro.Routes.{Answer, Effect, called, slept, Reply, Env, Job}
use mybro.Routes.Chat.{
  max_retries, pick_slot, delay_ms, Verdict, finished, again, Round, settle, attempts, retry_loop,
  Outcome, conclude,
}
use mybro.Routes.Trace.{
  collect-append, record_of, call_of, sleep_of, records, calls, sleeps, retryable, one_record,
  retried, delays,
}
use mybro.Routes.Rounds.{VerdictOk, RoundOk, settle-RoundOk}

-- The whole loop, from the attempt at hand on, with so many attempts left.
LoopOk : ℕ → ℕ → Outcome → Type 0
LoopOk attempt left o =
    (one_record o.reply (records o.effects) ≡ true)
    × (retried attempt (calls o.effects) ≡ true)
    × (sleeps o.effects ≡ delays attempt (length (calls o.effects) - 1))
    × (1 ≤ length (calls o.effects))
    × (length (calls o.effects) ≤ left)

retried-cons :
    (attempt : ℕ) (a : Answer) (more : List Answer)
    → retryable a ≡ true
    → retried (attempt + 1) more ≡ true
    → retried attempt (a ∷ more) ≡ true
retried-cons attempt a [] e h = absurd (ground arith)
retried-cons attempt a (b ∷ more) e h = rw (e) h

delays-suc :
    (attempt n : ℕ) → 1 ≤ n → delay_ms attempt ∷ delays (attempt + 1) (n - 1) ≡ delays attempt n
delays-suc attempt zero h = absurd (omega arith)
delays-suc attempt (suc n) h = let e : suc n - 1 ≡ n = omega arith in rw e refl

-- A round that goes on, and the loop after it.
again-LoopOk :
    (attempt left delay : ℕ) (key : String) (answer : Answer) (es : List Effect) (rest : Outcome)
    → VerdictOk attempt answer (again delay) es
    → calls es ≡ []
    → sleeps es ≡ []
    → LoopOk (attempt + 1) left rest
    → LoopOk attempt (suc left) (record {
      reply = rest.reply;
      effects = called key answer ∷ es ++ slept delay ∷ rest.effects;
      pool = rest.pool;
    })
unfolding LoopOk VerdictOk
again-LoopOk attempt left delay key answer es rest (d, busy, early, silent) nc ns
      (one, re, sl, lo, hi) =
    let fs = slept delay ∷ rest.effects in
    let r : records (es ++ fs) ≡ records rest.effects =
      collect-append record_of es fs ∙ ap (λ x. x ++ records rest.effects) silent in
    let c : calls (es ++ fs) ≡ calls rest.effects =
      collect-append call_of es fs ∙ ap (λ x. x ++ calls rest.effects) nc in
    let s : sleeps (es ++ fs) ≡ delay ∷ sleeps rest.effects =
      collect-append sleep_of es fs ∙ ap (λ x. x ++ delay ∷ sleeps rest.effects) ns in
    let e : suc (length (calls rest.effects)) - 1 ≡ length (calls rest.effects) = omega arith in
    let q : delay ∷ sleeps rest.effects ≡ delays attempt (suc (length (calls rest.effects)) - 1) =
      rw (d, sl, e) (delays-suc attempt (length (calls rest.effects)) lo) in
    rw (r, c, s)
      (
        one,
        retried-cons attempt answer (calls rest.effects) busy re,
        q,
        omega arith,
        omega (arith, hi),
      )

finished-LoopOk :
    (attempt left : ℕ) (key : String) (answer : Answer) (reply : Reply) (es : List Effect)
    (pool : PoolInner)
    → VerdictOk attempt answer (finished reply) es
    → calls es ≡ []
    → sleeps es ≡ []
    → LoopOk attempt
        (suc left)
        (record { reply = reply; effects = called key answer ∷ es; pool = pool })
unfolding LoopOk VerdictOk
finished-LoopOk attempt left key answer reply es pool (one, re) nc ns =
    rw (nc, ns) (one, re, refl, omega arith, omega arith)

conclude-LoopOk :
    (attempt left : ℕ) (key : String) (answer : Answer) (verdict : Verdict) (es : List Effect)
    (pool : PoolInner) (rest : ℕ → Outcome)
    → VerdictOk attempt answer verdict es
    → calls es ≡ []
    → sleeps es ≡ []
    → (attempt ≢ max_retries → (delay : ℕ) → LoopOk (attempt + 1) left (rest delay))
    → LoopOk attempt (suc left) (conclude key answer verdict es pool rest)
unfolding conclude VerdictOk
conclude-LoopOk attempt left key answer (finished reply) es pool rest v nc ns ih =
    finished-LoopOk attempt left key answer reply es pool v nc ns
conclude-LoopOk attempt left key answer (again delay) es pool rest (d, busy, early, silent) nc ns
      ih =
    again-LoopOk attempt left delay key answer es (rest delay) (d, busy, early, silent) nc ns
      (ih early delay)

-- The round of an attempt, and the loop after it.
abbrev round_of : Env → Job → ℕ → KeySlot → ℕ → PoolInner → Round
round_of env job attempt slot now pool =
    let picked = pick_slot attempt now slot pool in
    let asked = env.upstream picked.0.key now in
    let arrived = now + asked.1 in
    settle env job attempt picked.0 now arrived asked.0 (env.others arrived picked.1)

abbrev rest_of : Env → Job → ℕ → ℕ → KeySlot → ℕ → PoolInner → ℕ → Outcome
rest_of env job left attempt slot now pool delay =
    let r = round_of env job attempt slot now pool in
    attempts env job left (attempt + 1) (pick_slot attempt now slot pool).0
      (r.now + delay * 1_000_000) (env.others (r.now + delay * 1_000_000) r.pool)

attempt-LoopOk :
    (env : Env) (job : Job) (left attempt : ℕ) (slot : KeySlot) (now : ℕ) (pool : PoolInner)
    → (attempt ≢ max_retries
        → (delay : ℕ)
        → LoopOk (attempt + 1) left (rest_of env job left attempt slot now pool delay))
    → LoopOk attempt (suc left) (attempts env job (suc left) attempt slot now pool)
unfolding attempts RoundOk
attempt-LoopOk env job left attempt slot now pool ih =
    let picked = pick_slot attempt now slot pool in
    let asked = env.upstream picked.0.key now in
    let arrived = now + asked.1 in
    let round = round_of env job attempt slot now pool in
    let (v, nc, ns) =
      settle-RoundOk env job attempt picked.0 now arrived asked.0 (env.others arrived picked.1) in
    conclude-LoopOk attempt left picked.0.key asked.0 round.verdict round.effects round.pool
      (rest_of env job left attempt slot now pool) v nc ns ih

attempts-LoopOk :
    (env : Env) (job : Job) (left attempt : ℕ) (slot : KeySlot) (now : ℕ) (pool : PoolInner)
    → attempt + left ≡ max_retries
    → LoopOk attempt (suc left) (attempts env job (suc left) attempt slot now pool)
attempts-LoopOk env job zero attempt slot now pool all =
    attempt-LoopOk env job zero attempt slot now pool (λ ne delay. absurd (omega arith))
attempts-LoopOk env job (suc left) attempt slot now pool all =
    attempt-LoopOk env job (suc left) attempt slot now pool (λ ne delay.
      attempts-LoopOk env job left (attempt + 1) (pick_slot attempt now slot pool).0
        ((round_of env job attempt slot now pool).now + delay * 1_000_000)
        (env.others ((round_of env job attempt slot now pool).now + delay * 1_000_000)
          (round_of env job attempt slot now pool).pool)
        (omega arith))

loop :
    (env : Env) (job : Job) (slot : KeySlot) (now : ℕ) (pool : PoolInner)
    → LoopOk 1 10 (retry_loop env job slot now pool)
unfolding retry_loop
loop env job slot now pool = attempts-LoopOk env job 9 1 slot now pool (omega arith)

delays-total :
    (attempt n : ℕ)
    → 1 ≤ attempt
    → attempt + n ≤ 10
    → total (λ d. d) (delays attempt n) ≤ 27_000 * n
unfolding delay_ms
delays-total attempt zero lo hi = omega arith
delays-total attempt (suc n) lo hi =
    omega (arith, delays-total (attempt + 1) n (omega arith) (omega arith))

module _ (env : Env) (job : Job) (slot : KeySlot) (now : ℕ) (pool : PoolInner) where
  -- Whatever the upstream answers and whatever other requests do to the pool, the loop ends with a
  -- reply that is not the one for exhausted retries. A streamed reply has left no record yet; with
  -- any other, exactly one record is left: with the status of the reply, or, in the reply for failed
  -- connections, with 502.
  pub retry_loop-one_record :
      let o = retry_loop env job slot now pool in one_record o.reply (records o.effects) ≡ true
  unfolding LoopOk
  retry_loop-one_record = (loop env job slot now pool).0

  -- The loop calls the upstream at least once and at most ten times. Every answer but the last is a
  -- failed connection or a status 500 or 503, and the last is one of these only if it is the tenth.
  pub retry_loop-retried :
      let o = retry_loop env job slot now pool in
      (retried 1 (calls o.effects) ≡ true)
      × (1 ≤ length (calls o.effects))
      × (length (calls o.effects) ≤ 10)
  unfolding LoopOk
  retry_loop-retried = let (one, re, sl, lo, hi) = loop env job slot now pool in (re, lo, hi)

  -- Between two calls the loop sleeps once, 3 seconds after the first call and 3 seconds longer each
  -- time; together it sleeps at most 27 seconds for each call after the first.
  pub retry_loop-sleeps :
      let o = retry_loop env job slot now pool in
      let n = length (calls o.effects) - 1 in
      (sleeps o.effects ≡ delays 1 n) × (total (λ d. d) (sleeps o.effects) ≤ 27_000 * n)
  unfolding LoopOk
  retry_loop-sleeps =
      let (one, re, sl, lo, hi) = loop env job slot now pool in
      let n = length (calls (retry_loop env job slot now pool).effects) - 1 in
      (sl, rw sl (delays-total 1 n (omega arith) (omega (arith, lo, hi))))
