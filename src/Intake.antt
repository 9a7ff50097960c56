-- ===== src/Intake.antt =====
-- src/routes/chat.rs and src/routes/messages.rs, up to the upstream call: who is let in, which key the
-- conversation gets, and what becomes of the payload.
pub mod Fields
pub mod Model
pub mod Sent
pub mod Guard
pub mod Delivered
pub mod Assigned
mod Examples
use mybro.Access.{
  Headers, ApiFormat, open_ai, anthropic, check_auth, auth_error_body, openai_error,
  anthropic_error,
}
use mybro.Catalog.{Catalog, resolve_model_id, needs_vision_handoff}
use mybro.Config.{Config}
use mybro.HandoffCache
use mybro.HandoffCache.{Digest, CacheEntry}
use mybro.Json.{
  Value, null, bool, number, string, array, object, field, end, get, get_then, as_bool, as_str,
  as_object, insert, lookup, put_back,
}
use mybro.KeyPool.{KeySlot, PoolInner, acquire, total}
use mybro.Lru.{Lru}
use mybro.Payload.{strip_reasoning_content, normalize_thinking_payload, fingerprint_payload}
use mybro.Payload.Images.{limit_images_in_messages}
use mybro.Payload.Prompt.{extract_user_prompt, index_put, apply_auto_think}
use mybro.Prelude.{
  ℕ, ◌*◌, String, str_append, byte_len, slice_to, Bool, true, false, not, ◌&&◌, ◌||◌, Option, none,
  some, List, [], ◌∷◌, length, ltb, ◌==◌, if◌then◌else◌,
}
use mybro.SchemaNorm.{normalize_tool_schemas}
use mybro.Sessions
use mybro.Sessions.{Session, TouchResult}
use mybro.Vision.Handoff.{Heard, Parsed, parse_error, parsed, Turn, perform_vision_handoff}

-- The crates that the pipelines call: subtle, md5, sha2 and serde_json, and the text of a status.
pub record Crates : Type 0 where
  pub ct_eq : String → String → Bool
  pub md5_hex : String → String
  pub sha256 : String → Digest
  pub from_slice : List ℕ → Parsed
  pub to_string : Value → String
  pub status_text : ℕ → String

-- What comes of a request before the upstream call: a reply with its status and body, a panic, analyses
-- that are not over, or the payload that goes out, with the key's slot.
pub data Outcome : Type 0 where
  replied : ℕ → Value → Outcome
  panicked : Outcome
  pending : Outcome
  forwarded : Value → KeySlot → String → Bool → Outcome

abbrev pub max_body_size : ℕ
max_body_size = 5 * 1_024 * 1_024

-- The body as it arrives, `none` where it breaks off; a longer one than the limit is an error.
unfoldable pub read_body_limited : Option (List ℕ) → Option (List ℕ)
read_body_limited none = none
read_body_limited (some bytes) = if ltb max_body_size (length bytes) then none else some bytes

abbrev pub is_stream : Value → Bool
is_stream payload = elim (get_then "stream" as_bool payload) [ none ↦ false | some b ↦ b ]

abbrev pub requested_model : Value → String
requested_model payload = elim (get_then "model" as_str payload) [ none ↦ "" | some s ↦ s ]

abbrev pub over_tools : (Value → String) → Value → Value
over_tools to_string payload = elim (get "tools" payload) [
  | none ↦ payload
  | some tools ↦ put_back "tools" (normalize_tool_schemas to_string tools) payload
]

-- `entry("stream_options").or_insert_with(|| json!({}))`.
abbrev pub or_new : Option Value → Value
or_new none = object end
or_new (some v) = v

abbrev pub with_usage : Value → Value
with_usage v = elim (as_object v) [
  | none ↦ v
  | some opts ↦ object (insert "include_usage" (bool true) opts)
]

unfoldable pub ask_usage : Value → Value
ask_usage (object fs) =
    object (insert "stream_options" (with_usage (or_new (lookup "stream_options" fs))) fs)
ask_usage null = null
ask_usage (bool b) = bool b
ask_usage (number n) = number n
ask_usage (string s) = string s
ask_usage (array vs) = array vs

-- `and_then(|t| t.token_index)`.
abbrev pub preferred_of : Option TouchResult → Option ℕ
preferred_of none = none
preferred_of (some t) = t.token_index

-- `if prompt.len() > 80 { &prompt[..80] }`: is there a text to log?
unfoldable pub prompt_fits : String → Bool
prompt_fits prompt =
    if ltb 80 (byte_len prompt)
    then elim (slice_to 80 prompt) [ none ↦ false | some _ ↦ true ]
    else true

module _ (crates : Crates) (lru : Lru Digest CacheEntry) (sessions : Lru String Session) where
  -- The state that the pipelines share, as far as they touch it here.
  pub record Shared : Type 0 where
    pub config : Config
    pub catalog : Option Catalog
    pub pool : PoolInner
    pub conv_map : Sessions.State sessions
    pub handoff_cache : HandoffCache.State lru

  -- The upstream's answers to the analyses of images, and the order of their turns.
  pub record Analysts : Type 0 where
    pub answer : ℕ → Heard
    pub turns : List Turn

  unfoldable pub handoff :
      Analysts → Shared → String → Value → Option (Value × HandoffCache.State lru)
  unfolding needs_vision_handoff
  handoff analysts st model payload =
      if needs_vision_handoff st.catalog model st.config
      then elim (perform_vision_handoff lru crates.sha256 crates.from_slice crates.status_text
          st.catalog model st.config st.config.vision_handoff_cache_enabled analysts.answer
          analysts.turns st.handoff_cache payload) [ none ↦ none | some r ↦ some (r.0, r.2) ]
      else some (payload, st.handoff_cache)

  -- Steps 6 to 8 of the chat pipeline, with the images limited for a model that takes them, and the
  -- thinking; `none` is the panic.
  unfoldable pub chat_payload : Shared → String → Value → Option Value
  unfolding strip_reasoning_content index_put needs_vision_handoff limit_images_in_messages
      apply_auto_think normalize_thinking_payload
  chat_payload st model payload =
      elim (index_put "model" (string model) (strip_reasoning_content payload)) [
        | none ↦ none
        | some named ↦
            let tools = over_tools crates.to_string named in
            let images =
              if needs_vision_handoff st.catalog model st.config
              then tools
              else limit_images_in_messages st.config.max_images tools in
            elim (apply_auto_think st.catalog model images) [
              | none ↦ none
              | some thinking ↦ some (normalize_thinking_payload thinking)
            ]
      ]

  unfoldable pub messages_payload : Shared → String → Value → Option Value
  unfolding index_put limit_images_in_messages normalize_thinking_payload
  messages_payload st model payload =
      elim (index_put "model" (string model) (normalize_thinking_payload payload)) [
        | none ↦ none
        | some named ↦ some (limit_images_in_messages st.config.max_images named)
      ]

  -- A key for the conversation: a look at its session, the pool, and the session's record. The key
  -- comes with whether the first prompt of a new session can be logged.
  unfoldable pub key_for : ℕ → Value → Shared → Option (KeySlot × Bool) × Shared
  unfolding fingerprint_payload acquire extract_user_prompt prompt_fits
  key_for now payload st =
      let fp = fingerprint_payload crates.md5_hex payload in
      let touched = Sessions.touch sessions fp st.conv_map in
      let got = acquire now (preferred_of touched.0) st.pool in
      elim got.0 [
        | none ↦ (none, record st { pool = got.1; conv_map = touched.1 })
        | some slot ↦
            let tracked = Sessions.track sessions fp slot.index touched.1 in
            (
              some (slot, not tracked.0.is_new || prompt_fits (extract_user_prompt payload)),
              record st { pool = got.1; conv_map = tracked.1 },
            )
      ]

  -- The rest of the chat pipeline before the upstream call, for an admitted request.
  unfoldable pub chat_send : ℕ → Analysts → Value → Shared → Outcome × Shared
  unfolding resolve_model_id key_for chat_payload handoff ask_usage
  chat_send now analysts payload st = elim (key_for now payload st).0 [
    | none ↦ (
      replied 200 (openai_error 503 "No healthy API keys available" "api_error"),
      (key_for now payload st).1,
    )
    | some got ↦
        let st' = (key_for now payload st).1 in
        let model = resolve_model_id st'.catalog (requested_model payload) st'.config in
        if not got.1 then (panicked, st') else elim (chat_payload st' model payload) [
          | none ↦ (panicked, st')
          | some ready ↦ elim (handoff analysts st' model ready) [
            | none ↦ (pending, st')
            | some r ↦ (
              forwarded (if is_stream payload then ask_usage r.0 else r.0) got.0 model
                  (is_stream payload),
              record st' { handoff_cache = r.1 },
            )
          ]
        ]
  ]

  unfoldable pub messages_send : ℕ → Analysts → Value → Shared → Outcome × Shared
  unfolding resolve_model_id key_for messages_payload handoff
  messages_send now analysts payload st = elim (key_for now payload st).0 [
    | none ↦ (
      replied 200 (anthropic_error 503 "No healthy API keys available"),
      (key_for now payload st).1,
    )
    | some got ↦
        let st' = (key_for now payload st).1 in
        let model =
          resolve_model_id st'.catalog (requested_model (normalize_thinking_payload payload))
            st'.config in
        if not got.1 then (panicked, st') else elim (messages_payload st' model payload) [
          | none ↦ (panicked, st')
          | some ready ↦ elim (handoff analysts st' model ready) [
            | none ↦ (pending, st')
            | some r ↦ (
              forwarded (over_tools crates.to_string r.0) got.0 model (is_stream payload),
              record st' { handoff_cache = r.1 },
            )
          ]
        ]
  ]

  -- `admitted` is the gate's answer.
  unfoldable pub chat_intake :
      Headers → Option (List ℕ) → Bool → ℕ → Analysts → Shared → Outcome × Shared
  unfolding check_auth read_body_limited chat_send
  chat_intake headers body admitted now analysts st =
      if not (check_auth crates.ct_eq st.config headers)
      then (replied 401 (auth_error_body open_ai), st)
      else elim (read_body_limited body) [
        | none ↦ (replied 413 (string "Body too large"), st)
        | some bytes ↦ elim (crates.from_slice bytes) [
          | parse_error e ↦ (
            replied 200 (openai_error 400 (str_append "Invalid JSON: " e) "invalid_request_error"),
            st,
          )
          | parsed payload ↦
              if not admitted
              then (replied 200 (openai_error 503 "Queue full" "queue_full"), st)
              else chat_send now analysts payload st
        ]
      ]

  unfoldable pub messages_intake :
      Headers → Option (List ℕ) → Bool → ℕ → Analysts → Shared → Outcome × Shared
  unfolding check_auth read_body_limited messages_send
  messages_intake headers body admitted now analysts st =
      if not (check_auth crates.ct_eq st.config headers)
      then (replied 401 (auth_error_body anthropic), st)
      else elim (read_body_limited body) [
        | none ↦ (replied 413 (string "Body too large"), st)
        | some bytes ↦ elim (crates.from_slice bytes) [
          | parse_error e ↦ (replied 200 (anthropic_error 400 (str_append "Invalid JSON: " e)), st)
          | parsed payload ↦
              if total st.pool == 0
              then (replied 200 (anthropic_error 503 "No API keys configured"), st)
              else if not admitted
              then (replied 200 (anthropic_error 503 "Queue full"), st)
              else messages_send now analysts payload st
        ]
      ]
