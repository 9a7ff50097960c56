-- ===== src/Routes/Examples.antt =====
-- The handlers at concrete inputs: tests, and their theorems applied.
use mybro.KeyPool.{
  KeyEntry, KeySlot, PoolInner, from_secs, acquire, try_preferred, round_robin, is_usable,
  is_past_cooldown, mark_healthy, mark_unhealthy, cooldown_for_status, total,
}
use mybro.Prelude.{
  ltb, ◌||◌, if◌then◌else◌, ℕ, ◌/◌, ◌≤◌, ◌≡◌, ◌≢◌, refl, String, true, false, none, some, List, [],
  ◌∷◌, length, str_eq, contains, starts_with, strip_prefix, if◌then◌else◌, arith, codes,
}
use mybro.Routes.{
  UpstreamResponse, Answer, response, transport, json_body, bad_gateway, Env, Job, is_sse,
  record_stat, stream_record,
}
use mybro.Routes.Chat
use mybro.Routes.Chat.{pick_slot, delay_ms, attempts, conclude, retry_loop, settle, succeed}
use mybro.Routes.Messages.{upstream_call, counted, upstream_call-one_record}
use mybro.Routes.Retry.{retry_loop-one_record, retry_loop-retried}
use mybro.Routes.Stream.{chunks, pipe_response, on_complete, pipe_response-chunks}
use mybro.Routes.Switch.{pick_slot-mark_unhealthy}
use mybro.Routes.Trace.{records, calls, sleeps, one_record, retried}
use mybro.Stats.{RequestRecord}
use mybro.UsageParse.{no_usage, new_accumulator, extract_usage}
use mybro.UsageParse.Chunks.{concat, lines}
use mybro.UsageParse.Lines.{process_all, scan}

program : Unit {0}
unfolding retry_loop attempts conclude pick_slot delay_ms Chat.retry_status Chat.retry_transport
    Chat.pass_on Chat.wrap_json_as_sse settle succeed acquire try_preferred round_robin is_usable
    is_past_cooldown mark_healthy mark_unhealthy cooldown_for_status total is_sse contains
    starts_with strip_prefix record_stat stream_record extract_usage upstream_call pipe_response
    on_complete process_all lines scan concat
program = tt

abbrev primary : KeyEntry
primary = record {
  key = "sk-primary";
  name = "Primary";
  healthy = true;
  last_error = none;
  cooldown = from_secs 30;
}

abbrev two_keys : PoolInner
two_keys = record {
  entries = primary ∷ record primary { key = "sk-backup"; name = "Backup" } ∷ [];
  cursor = 1;
}

abbrev first_slot : KeySlot
first_slot = record { index = 0; key = "sk-primary"; name = "Primary" }

abbrev answered : UpstreamResponse
answered = record {
  status = 200;
  content_type = some "application/json";
  headers = [];
  body = some (codes "{}");
  body_after = 2_000_000;
}

-- The first key has failed for good, the other answers after half a second.
abbrev half_broken : String → ℕ → Answer × ℕ
half_broken key now =
    if str_eq key "sk-primary"
    then (response (record answered { status = 500 }), 1_000_000)
    else (response answered, 500_000_000)

abbrev with_upstream : (String → ℕ → Answer × ℕ) → Env
with_upstream upstream = record {
  upstream = upstream;
  others = λ now pool. pool;
  wall_ms = λ now. now / 1_000_000;
  from_utf8_lossy = λ bytes. "";
  from_str = λ bytes. none;
  from_slice = λ bytes. none;
}

abbrev unreachable : Env
unreachable = with_upstream (λ key now. (transport "upstream error: connection refused", 1_000_000))

abbrev job : Job
job = record { model = "coder"; is_stream = false; req_start = 0 }

-- A second call with the other key succeeds, 3 seconds later.
recovers :
    let o = retry_loop (with_upstream half_broken) job first_slot 0 two_keys in
    (o.reply ≡ json_body (codes "{}"))
    × (sleeps o.effects ≡ 3000 ∷ [])
    × (length (calls o.effects) ≡ 2)
unfolding retry_loop attempts conclude pick_slot delay_ms Chat.retry_status settle succeed acquire
    try_preferred round_robin is_usable is_past_cooldown mark_healthy mark_unhealthy
    cooldown_for_status total is_sse contains starts_with strip_prefix record_stat extract_usage
recovers = (refl, refl, refl)

-- Without a connection the loop gives up after ten calls.
gives_up :
    let o = retry_loop unreachable job first_slot 0 two_keys in
    (o.reply ≡ bad_gateway "Upstream error: upstream error: connection refused")
    × (length (calls o.effects) ≡ 10)
unfolding retry_loop attempts conclude pick_slot delay_ms Chat.retry_transport settle acquire
    try_preferred round_robin is_usable is_past_cooldown mark_unhealthy cooldown_for_status total
    record_stat
gives_up = (refl, refl)

retry_loop-one_record_example :
    let o = retry_loop unreachable job first_slot 0 two_keys in
    one_record o.reply (records o.effects) ≡ true
retry_loop-one_record_example = retry_loop-one_record unreachable job first_slot 0 two_keys

retry_loop-retried_example :
    let o = retry_loop (with_upstream half_broken) job first_slot 0 two_keys in
    (retried 1 (calls o.effects) ≡ true)
    × (1 ≤ length (calls o.effects))
    × (length (calls o.effects) ≤ 10)
retry_loop-retried_example =
    retry_loop-retried (with_upstream half_broken) job first_slot 0 two_keys

pick_slot-mark_unhealthy_example :
    (pick_slot 2 (from_secs 3) first_slot (mark_unhealthy 0 0 500 two_keys)).0.index ≢ 0
unfolding is_usable is_past_cooldown cooldown_for_status
pick_slot-mark_unhealthy_example =
    pick_slot-mark_unhealthy 2 (from_secs 3) 0 500 1 first_slot two_keys (omega arith) (omega arith)
      (omega arith) refl (omega arith)

upstream_call-one_record_example :
    let o = upstream_call unreachable job first_slot 0 two_keys in
    if counted (transport "upstream error: connection refused")
    then one_record o.reply (records o.effects) ≡ true
    else (records o.effects ≡ [])
upstream_call-one_record_example = upstream_call-one_record unreachable job first_slot 0 two_keys

abbrev begun : RequestRecord
begun = record {
  ts_ms = 7;
  duration_ms = 0;
  ttft_ms = none;
  status = 200;
  model = "coder";
  pipeline = "openai";
  key_name = "Primary";
  tokens_in = 0;
  tokens_out = 0;
  cached_tokens = 0;
  cache_creation_tokens = 0;
  cached = false;
  error = none;
}

abbrev two_chunks : List (ℕ × List ℕ)
two_chunks = (3_000_000, codes "data:") ∷ (5_000_000, codes " {}\n") ∷ []

pipe_response-chunks_example :
    pipe_response unreachable 1_000_000 0 9_000_000 false (chunks two_chunks) new_accumulator begun
    ≡ (let u =
          process_all
            (λ bytes. none)
            (λ bytes. none)
            (lines (concat (codes "data:" ∷ codes " {}\n" ∷ [])))
            no_usage in
        some (record begun {
          duration_ms = 9;
          ttft_ms = some 2;
          tokens_in = u.tokens_in;
          tokens_out = u.tokens_out;
          cached_tokens = u.cached;
          cache_creation_tokens = u.creation;
          cached = ltb 0 u.cached || ltb 0 u.creation;
        }))
pipe_response-chunks_example =
    pipe_response-chunks unreachable 1_000_000 0 9_000_000 two_chunks begun
