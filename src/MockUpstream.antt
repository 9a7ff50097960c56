-- ===== src/MockUpstream.antt =====
-- src/mock_upstream.rs: the server that stands in for the upstream, its options, its pauses and the documents that
-- it reports. A pause has the random number as an argument. Chat has the two routes that answer a conversation, and
-- Pauses the bound on a pause.

pub mod Chat
mod Pauses
use mybro.Json
use mybro.Json.{
  Value, Items, Number, bool, number, pos_int, string, array, object, nil, cons, end, field,
  get_then, as_bool, as_str,
}
use mybro.Prelude.{
  ℕ, ◌+◌, ◌-◌, ◌*◌, ◌/◌, ◌%◌, ◌^◌, max, String, Bool, false, ◌&&◌, none, some, List, [], ◌∷◌, ltb,
  ◌==◌, if◌then◌else◌,
}

pub record Mock : Type 0 where
  pub port : ℕ
  pub request_count : ℕ
  pub error_every_n : ℕ
  pub delay_ms : ℕ
  pub concurrency_limit : ℕ

unfoldable pub with_options : ℕ → ℕ → ℕ → Mock
with_options port delay_ms concurrency_limit = record {
  port = port;
  request_count = 0;
  error_every_n = 0;
  delay_ms = delay_ms;
  concurrency_limit = concurrency_limit;
}

unfoldable pub new : ℕ → Mock
unfolding with_options
new port = with_options port 0 8

unfoldable pub with_delay : ℕ → ℕ → Mock
unfolding with_options
with_delay port delay_ms = with_options port delay_ms 8

unfoldable pub set_error_every_n : ℕ → Mock → Mock
set_error_every_n n m = record m { error_every_n = n }

unfoldable pub set_delay_ms : ℕ → Mock → Mock
set_delay_ms ms m = record m { delay_ms = ms }

-- The milliseconds of `simulate_delay`; `random` is what `rand::random` gives.
unfoldable pub simulate_delay : ℕ → Mock → ℕ
simulate_delay random m =
    let ms = m.delay_ms in
    let jitter = if ltb 100 ms then random % (ms / 2) else 0 in
    if ltb 0 ms then ms - ms / 4 + jitter else 0

-- The pause before every chunk of a chat stream but the first.
unfoldable pub chunk_pause : ℕ → Mock → ℕ
chunk_pause random m =
    let chunk_delay = max m.delay_ms 50 in chunk_delay + random % (chunk_delay / 3 + 1)

-- The pause before every event of `messages` but the first.
unfoldable pub event_pause : Mock → ℕ
event_pause m = max m.delay_ms 50

abbrev pub count : ℕ → Value
count n = number (pos_int n)

abbrev pub flag : String → Bool → Value
flag k b = object (field k (bool b) end)

abbrev pub model_info : String → String → ℕ → String → Bool → Value
model_info id display_name context_window supports_vision reasons = object (
    field "id" (string id) (
      field "display_name" (string display_name) (
        field "capabilities"
          (object (
            field "context_window" (count context_window) (
              field "supports_vision" (string supports_vision) (
                field "supports_tools" (bool Bool.true) (
                  field "reasoning"
                    (object (
                      field "supported" (bool reasons)
                        (field "can_disable" (bool false) (field "levels" (array nil) end))))
                    end)))))
          end)))

unfoldable pub models_info : Value
models_info = object (
    field "umans-coder" (model_info "umans-coder" "Coder" 200_000 "true" Bool.true)
      (field "umans-vision" (model_info "umans-vision" "Vision" 128_000 "via-handoff" false) end))

-- `limit * 2` on 64 bits, as in a release build.
unfoldable pub usage : Mock → Value
usage m = object (
    field "usage"
      (object (
        field "requests_in_window" (count 246) (
          field "tokens_in" (count 24_000_000) (
            field "tokens_out" (count 11_732_073) (
              field "tokens_cached" (count 9_360_000)
                (field "concurrent_sessions" (count 2) end))))))
      (field "limits"
        (object (
          field "concurrency"
            (object (
              field "limit" (count m.concurrency_limit)
                (field "hard_cap" (count ((m.concurrency_limit * 2) % 2 ^ 64)) end)))
            end))
        (field "window" (object (field "started_at" (string "2026-07-01T00:00:00Z") end)) (
          field "plan" (object (field "display_name" (string "Pro") end))
            (field "user_id" (string "mock-user-123") end)))))

-- A price per token, as serde_json reads the source's literal.
unfoldable pub models : (String → Number) → Value
models float_of =
    let priced = λ (id input output : String). object (
      field "id" (string id) (
        field "pricing"
          (object (
            field "input" (number (float_of input))
              (field "output" (number (float_of output)) end)))
          end)) in
    object (
      field "data"
        (array (
          cons (priced "umans-coder" "0.000001" "0.000003")
            (cons (priced "umans-vision" "0.000002" "0.000005") nil)))
        end)
