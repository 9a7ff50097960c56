-- ===== src/MockUpstream/Chat.antt =====
-- src/mock_upstream.rs, `chat_completions` and `messages`. A streamed answer is the list of its events.

use mybro.Json.{
  Value, Items, Fields, string, array, object, nil, cons, end, field, get_then, as_bool, as_str,
}
use mybro.MockUpstream.{Mock, count}
use mybro.Prelude.{
  ◌+◌, ◌%◌, ◌^◌, String, Bool, false, ◌&&◌, Option, none, some, List, [], ◌∷◌, ltb, ◌==◌,
  if◌then◌else◌,
}

pub data Piece : Type 0 where
  -- `data: ` and a value
  data_line : Value → Piece
  -- an event's name and its value
  event : String → Value → Piece
  -- the marker that ends a chat stream
  end_marker : Piece

pub data Answered : Type 0 where
  -- status 503
  overloaded : Value → Answered
  whole : Value → Answered
  streamed : List Piece → Answered

-- What `from_slice` gives on the body, `{}` where it gives nothing.
unfoldable pub payload_of : Option Value → Value
payload_of none = object end
payload_of (some v) = v

unfoldable pub wants_stream : Value → Bool
wants_stream payload = elim (get_then "stream" as_bool payload) [ none ↦ false | some b ↦ b ]

unfoldable pub asked_model : Value → String
asked_model payload = elim (get_then "model" as_str payload) [ none ↦ "umans-coder" | some m ↦ m ]

abbrev pub refusal : Value
refusal = object (
    field "error"
      (object (
        field "message" (string "mock upstream overloaded")
          (field "type" (string "overloaded_error") end)))
      end)

abbrev pub chunk : String → Items → Fields → Value
chunk model choices rest = object (
    field "id" (string "chatcmpl-mock") (
      field "object" (string "chat.completion.chunk")
        (field "model" (string model) (field "choices" (array choices) rest))))

abbrev pub choice : Fields → Items
choice delta = cons (object (field "delta" (object delta) (field "index" (count 0) end))) nil

abbrev pub final_usage : Value
final_usage = object (
    field "prompt_tokens" (count 10) (
      field "completion_tokens" (count 8) (
        field "total_tokens" (count 18)
          (field "prompt_tokens_details" (object (field "cached_tokens" (count 4) end)) end))))

unfoldable pub chat_stream : String → List Piece
chat_stream model =
    data_line (
      chunk model
        (choice (field "role" (string "assistant") (field "content" (string "Mock ") end))) end)
    ∷ data_line
        (chunk model (choice (field "content" (string "response from the mock upstream.") end)) end)
    ∷ data_line (chunk model nil (field "usage" final_usage end))
    ∷ end_marker
    ∷ []

unfoldable pub chat_answer : String → Value
chat_answer model = object (
    field "id" (string "chatcmpl-mock") (
      field "object" (string "chat.completion") (
        field "model" (string model) (
          field "choices"
            (array (
              cons
                (object (
                  field "index" (count 0) (
                    field "message"
                      (object (
                        field "role" (string "assistant")
                          (field "content" (string "Mock response from the upstream.") end)))
                      (field "finish_reason" (string "stop") end))))
                nil))
            (field "usage"
              (object (
                field "prompt_tokens" (count 10)
                  (field "completion_tokens" (count 8) (field "total_tokens" (count 18) end))))
              end)))))

-- A request is counted before its body is read, and every `error_every_n`th is refused.
unfoldable pub chat_completions : Option Value → Mock → Answered × Mock
chat_completions body m =
    let n = (m.request_count + 1) % 2 ^ 64 in
    let payload = payload_of body in
    let model = asked_model payload in
    let answer =
      if wants_stream payload then streamed (chat_stream model) else whole (chat_answer model) in
    let refused = ltb 0 m.error_every_n && n % m.error_every_n == 0 in
    (if refused then overloaded refusal else answer, record m { request_count = n })

abbrev pub text_delta : String → Piece
text_delta text = event "content_block_delta" (
    object (
      field "type" (string "content_block_delta") (
        field "index" (count 0) (
          field "delta"
            (object (field "type" (string "text_delta") (field "text" (string text) end))) end))))

unfoldable pub message_start : String → Value
message_start model = object (
    field "type" (string "message_start") (
      field "message"
        (object (
          field "id" (string "msg-mock") (
            field "type" (string "message") (
              field "role" (string "assistant") (
                field "model" (string model) (
                  field "content" (array nil) (
                    field "usage"
                      (object (
                        field "input_tokens" (count 10) (
                          field "output_tokens" (count 1) (
                            field "cache_read_input_tokens" (count 4)
                              (field "cache_creation_input_tokens" (count 0) end)))))
                      end)))))))
        end))

unfoldable pub message_stream : String → List Piece
message_stream model =
    event "message_start" (message_start model)
    ∷ text_delta "Mock "
    ∷ text_delta "response from the mock upstream."
    ∷ event "message_delta" (
        object (
          field "type" (string "message_delta") (
            field "delta" (object (field "stop_reason" (string "end_turn") end))
              (field "usage" (object (field "output_tokens" (count 8) end)) end))))
    ∷ event "message_stop" (object end)
    ∷ []

unfoldable pub message_answer : String → Value
message_answer model = object (
    field "id" (string "msg-mock") (
      field "type" (string "message") (
        field "role" (string "assistant") (
          field "model" (string model) (
            field "content"
              (array (
                cons
                  (object (
                    field "type" (string "text")
                      (field "text" (string "Mock response from the upstream.") end)))
                  nil))
              (field "usage"
                (object (field "input_tokens" (count 10) (field "output_tokens" (count 8) end)))
                end))))))

-- `messages` neither counts a request nor refuses one.
unfoldable pub messages : Option Value → Answered
messages body =
    let payload = payload_of body in
    let model = asked_model payload in
    if wants_stream payload then streamed (message_stream model) else whole (message_answer model)
