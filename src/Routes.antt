-- ===== src/Routes.antt =====
-- src/routes/: the request handlers. Here is what the two pipelines share: the upstream's answers,
-- what a handler does besides changing the pool, and its reply.
-- Instants are nanoseconds of one clock.
pub mod Chat
pub mod Messages
pub mod Stream
pub mod Trace
pub mod Rounds
pub mod Retry
pub mod Switch
mod Examples
use mybro.Prelude.{
  ℕ, ◌+◌, ◌-◌, ◌/◌, ◌%◌, ◌^◌, String, contains, Bool, true, false, ◌&&◌, ◌||◌, Option, none, some,
  List, [], ◌∷◌, ltb, leb,
}
use mybro.Json.{Value}
use mybro.KeyPool.{PoolInner}
use mybro.Stats.{RequestRecord}
use mybro.UsageParse.{Usage, no_usage}

-- `reqwest::Response` as far as the handlers look at it. `content_type` is the header's value where it
-- is a text; `body` is what `read_body` gives, `none` where reading fails, `body_after` nanoseconds
-- after the head of the response.
pub record UpstreamResponse : Type 0 where
  pub status : ℕ
  pub content_type : Option String
  pub headers : List (String × String)
  pub body : Option (List ℕ)
  pub body_after : ℕ

-- An error carries its text.
pub data Answer : Type 0 where
  response : UpstreamResponse → Answer
  transport : String → Answer

-- What a handler does, in order: a call of the upstream with a key, an entry of the error log with the
-- attempt and the status, a bump of the gate's throttle counter, a record for the statistics, a
-- sleep in milliseconds.
pub data Effect : Type 0 where
  called : String → Answer → Effect
  logged : ℕ → ℕ → String → Effect
  throttled : Effect
  recorded : RequestRecord → Effect
  slept : ℕ → Effect

-- The replies, by the place in the source that builds them. `streaming` carries the record that is
-- completed when the stream ends, and the instant of the upstream call.
pub data Reply : Type 0 where
  streaming : ℕ → RequestRecord → ℕ → Reply
  json_body : List ℕ → Reply
  sse_text : String → Reply
  error_body : ℕ → String → Reply
  passed_on : ℕ → List (String × String) → List ℕ → Reply
  passed_text : ℕ → List (String × String) → String → Reply
  bad_gateway : String → Reply
  exhausted : Reply

-- What the handlers run in: the upstream's answer to a key at an instant, with the time until its head
-- arrives; what other requests did to the pool by an instant; the wall clock in milliseconds at an
-- instant; and the parsers of texts.
pub record Env : Type 0 where
  pub upstream : String → ℕ → Answer × ℕ
  pub others : ℕ → PoolInner → PoolInner
  pub wall_ms : ℕ → ℕ
  pub from_utf8_lossy : List ℕ → String
  pub from_str : List ℕ → Option Value
  pub from_slice : List ℕ → Option Value

-- What the handler knows of its request when it reaches the upstream call.
pub record Job : Type 0 where
  pub model : String
  pub is_stream : Bool
  pub req_start : ℕ

-- `elapsed().as_millis() as u64`.
abbrev pub elapsed_ms : ℕ → ℕ → ℕ
elapsed_ms now start = ((now - start) / 1_000_000) % 2 ^ 64

-- `StatusCode::is_success`.
abbrev pub is_success : ℕ → Bool
is_success status = leb 200 status && ltb status 300

unfoldable pub is_sse : UpstreamResponse → Bool
unfolding contains
is_sse r = elim r.content_type [ none ↦ false | some t ↦ contains "text/event-stream" t ]

-- `unwrap_or_default()`.
abbrev pub or_empty : Option (List ℕ) → List ℕ
or_empty none = []
or_empty (some b) = b

-- The record that `record_stat` hands to the collector.
unfoldable pub record_stat :
    Env → ℕ → Job → Option ℕ → ℕ → String → String → Usage → Option String → RequestRecord
record_stat env now job ttft_ms status pipeline key_name usage error = record {
  ts_ms = env.wall_ms now;
  duration_ms = elapsed_ms now job.req_start;
  ttft_ms = ttft_ms;
  status = status;
  model = job.model;
  pipeline = pipeline;
  key_name = key_name;
  tokens_in = usage.tokens_in;
  tokens_out = usage.tokens_out;
  cached_tokens = usage.cached;
  cache_creation_tokens = usage.creation;
  cached = ltb 0 usage.cached || ltb 0 usage.creation;
  error = error;
}

-- The record of a streamed response before its first chunk.
unfoldable pub stream_record : Env → ℕ → Job → String → String → RequestRecord
stream_record env now job pipeline key_name = record {
  ts_ms = env.wall_ms now;
  duration_ms = 0;
  ttft_ms = none;
  status = 200;
  model = job.model;
  pipeline = pipeline;
  key_name = key_name;
  tokens_in = 0;
  tokens_out = 0;
  cached_tokens = 0;
  cache_creation_tokens = 0;
  cached = false;
  error = none;
}

-- `read_error_body`: an unreadable body is an empty text.
abbrev pub read_error_body : Env → UpstreamResponse → String
read_error_body env r = elim r.body [ none ↦ "" | some b ↦ env.from_utf8_lossy b ]
