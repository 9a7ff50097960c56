-- ===== src/Intake/Examples.antt =====
-- Requests before the upstream call at concrete inputs: tests, and the theorems applied.
use mybro.Access.{
  Headers, open_ai, check_auth, grants, provided, is_valid, auth_error_body, openai_error,
  anthropic_error, anthropic_error_type,
}
use mybro.Catalog.{Catalog, needs_vision_handoff, resolve_model_id, effective_models}
use mybro.Config.{default_config}
use mybro.HandoffCache.{Digest, CacheEntry}
use mybro.Intake.{
  max_body_size, Crates, panicked, forwarded, Shared, Analysts, chat_send, chat_intake,
  messages_send, messages_intake, read_body_limited, chat_payload, messages_payload, handoff,
  ask_usage, key_for, prompt_fits,
}
use mybro.Intake.Delivered.{chat_send-sent}
use mybro.Intake.Sent.{sent_of, send-model}
use mybro.Intake.Guard.{intake-guarded}
use mybro.Json.{
  Value, string, bool, object, array, field, end, cons, nil, get, lookup, insert, remove, put_back,
  as_str, as_array, as_object, as_bool, to_list, from_list, contains_key,
}
use mybro.KeyPool.{
  KeySlot, PoolInner, new, from_config, acquire, try_preferred, round_robin, is_usable,
  is_past_cooldown, total,
}
use mybro.Lru.{Lru}
use mybro.Lru.Lists.{
  list_lru, lookup as lookup_entry, delete, delete_all, drop_last, get as lru_get, modify, put,
}
use mybro.Payload.{
  strip_reasoning_content, strip_message, drop_reasoning, normalize_thinking_payload, rename_budget,
  fingerprint_payload, first_user_text, first_text, msg_text, is_image_part,
}
use mybro.Payload.Images.{
  limit_images_in_messages, positions, positions_from, message_positions, sort_positions,
  insert_pos, replace_each, write_at,
}
use mybro.Payload.Prompt.{
  index_put, apply_auto_think, extract_user_prompt, last_user, strip_bracket_prefix, after_bracket,
}
use mybro.Prelude.{
  Option, ℕ, List, ◌≤◌, length, ◌≡◌, refl, String, str_eq, eq_iff, true, none, some, [], ◌∷◌,
  byte_len, slice_to, trim_start, is_whitespace, starts_with, strip_prefix, codes_eq,
  codes_eq_sound, codes_eq_self,
}
use mybro.Sessions.{Session, touch, track, evict, make_room}
use mybro.Vision.Handoff.{refused, parsed, perform_vision_handoff}

program : Unit {0}
unfolding check_auth grants provided is_valid auth_error_body openai_error anthropic_error
    anthropic_error_type needs_vision_handoff resolve_model_id effective_models chat_send
    chat_intake messages_send messages_intake read_body_limited chat_payload messages_payload
    handoff ask_usage key_for prompt_fits get lookup insert remove put_back as_str as_array
    as_object as_bool to_list from_list contains_key new from_config acquire try_preferred
    round_robin is_usable is_past_cooldown total lookup_entry delete delete_all drop_last lru_get
    modify put strip_reasoning_content strip_message drop_reasoning normalize_thinking_payload
    rename_budget fingerprint_payload first_user_text first_text msg_text is_image_part
    limit_images_in_messages positions positions_from message_positions sort_positions insert_pos
    replace_each write_at index_put apply_auto_think extract_user_prompt last_user
    strip_bracket_prefix after_bracket byte_len slice_to trim_start is_whitespace starts_with
    strip_prefix codes_eq touch track evict make_room perform_vision_handoff
program = tt

abbrev pages : Lru Digest CacheEntry
pages = list_lru codes_eq codes_eq_sound codes_eq_self 49

str_eq_sound : (a b : String) → str_eq a b ≡ true → a ≡ b
str_eq_sound a b h = (eq_iff a b).0 h

str_eq_self : (a : String) → str_eq a a ≡ true
str_eq_self a = (eq_iff a a).1 refl

abbrev chats : Lru String Session
chats = list_lru str_eq str_eq_sound str_eq_self 9_999

abbrev request : Value
request = object (
    field "model" (string "coder") (
      field "messages"
        (array
          (cons (object (field "role" (string "user") (field "content" (string "hello") end))) nil))
        (field "stream" (bool true) end)))

abbrev crates : Crates
crates = record {
  ct_eq = str_eq;
  md5_hex = λ s. s;
  sha256 = λ s. [];
  from_slice = λ bytes. parsed request;
  to_string = λ v. "";
  status_text = λ n. "";
}

abbrev models : Catalog
models = record { info = []; display = []; ordered_ids = "umans-coder" ∷ [] }

abbrev server : Shared crates pages chats
server = record {
  config = default_config;
  catalog = some models;
  pool = new (
      from_config (record { name = "one"; key = "sk-1"; session = "" })
      ∷ from_config (record { name = "two"; key = "sk-2"; session = "" })
      ∷ []);
  conv_map = record { inner = []; counter = 0 };
  handoff_cache = record { inner = []; cap = 50; ttl = 1_000; hits = 0; misses = 0; evictions = 0 };
}

abbrev analysts : Analysts crates pages chats
analysts = record { answer = λ i. refused 500; turns = [] }

abbrev sent_request : Value
sent_request = object (
    field "model" (string "umans-coder") (
      field "messages"
        (array
          (cons (object (field "role" (string "user") (field "content" (string "hello") end))) nil))
        (field "stream" (bool true)
          (field "stream_options" (object (field "include_usage" (bool true) end)) end))))

abbrev first_slot : KeySlot
first_slot = record { index = 0; key = "sk-1"; name = "one" }

abbrev open_door : Headers
open_door = record { x_api_key = none; authorization = none }

-- The model is written back, and usage asked for.
sent :
    (chat_intake crates pages chats open_door (some []) true 0 analysts server).0
    ≡ forwarded sent_request first_slot "umans-coder" true
unfolding check_auth grants provided needs_vision_handoff resolve_model_id effective_models
    chat_send chat_intake read_body_limited chat_payload handoff ask_usage key_for prompt_fits get
    lookup insert put_back as_str as_array as_object as_bool to_list from_list new from_config
    acquire try_preferred round_robin is_usable is_past_cooldown lookup_entry delete lru_get modify
    put strip_reasoning_content strip_message normalize_thinking_payload fingerprint_payload
    first_user_text first_text msg_text is_image_part limit_images_in_messages positions
    positions_from message_positions sort_positions replace_each write_at index_put apply_auto_think
    extract_user_prompt last_user strip_bracket_prefix byte_len starts_with strip_prefix touch track
    make_room
sent = refl

-- A body that is JSON but no object ends in the panic of `payload["model"] = …`.
no_object : (chat_send crates pages chats 0 analysts (string "hello") server).0 ≡ panicked
unfolding needs_vision_handoff resolve_model_id effective_models chat_send chat_payload key_for
    prompt_fits get lookup as_str as_array new from_config acquire try_preferred round_robin
    is_usable is_past_cooldown lookup_entry lru_get put strip_reasoning_content fingerprint_payload
    index_put extract_user_prompt byte_len starts_with strip_prefix touch track make_room
no_object = refl

send-model_example :
    (get "model" sent_request ≡ some (string "umans-coder"))
    × (◌≡◌ {A = String} "umans-coder" (resolve_model_id (some models) "coder" default_config))
unfolding check_auth grants provided needs_vision_handoff resolve_model_id effective_models
    chat_send chat_payload handoff ask_usage key_for prompt_fits get lookup insert put_back as_str
    as_array as_object as_bool to_list from_list new from_config acquire try_preferred round_robin
    is_usable is_past_cooldown lookup_entry delete lru_get modify put strip_reasoning_content
    strip_message normalize_thinking_payload fingerprint_payload first_user_text first_text msg_text
    is_image_part limit_images_in_messages positions positions_from message_positions sort_positions
    replace_each write_at index_put apply_auto_think extract_user_prompt last_user
    strip_bracket_prefix byte_len starts_with strip_prefix touch track make_room
send-model_example =
    send-model crates pages chats open_ai 0 analysts request server sent_request "umans-coder" refl

chat_send-sent_example :
    (out : Value × String) × (sent_of (chat_send crates pages chats 0 analysts request server).0
      ≡ some out)
unfolding needs_vision_handoff resolve_model_id effective_models chat_send chat_payload handoff
    ask_usage key_for prompt_fits get lookup insert put_back as_str as_array as_object as_bool
    to_list from_list new from_config acquire try_preferred round_robin is_usable is_past_cooldown
    lookup_entry delete lru_get modify put strip_reasoning_content strip_message
    normalize_thinking_payload fingerprint_payload first_user_text first_text msg_text is_image_part
    extract_user_prompt last_user strip_bracket_prefix byte_len starts_with strip_prefix touch track
    make_room
chat_send-sent_example =
    chat_send-sent crates pages chats 0 analysts request server first_slot refl refl refl

intake-guarded_example :
    (check_auth str_eq default_config open_door ≡ true)
    × ((bytes : List ℕ) × (◌≡◌ {A = Option (List ℕ)} (some []) (some bytes))
        × (length bytes ≤ max_body_size))
    × (true ≡ true)
unfolding chat_intake read_body_limited check_auth grants provided needs_vision_handoff
    resolve_model_id effective_models chat_send chat_payload handoff ask_usage key_for prompt_fits
    get lookup insert put_back as_str as_array as_object as_bool to_list from_list new from_config
    acquire try_preferred round_robin is_usable is_past_cooldown lookup_entry delete lru_get modify
    put strip_reasoning_content strip_message normalize_thinking_payload fingerprint_payload
    first_user_text first_text msg_text is_image_part limit_images_in_messages positions
    positions_from message_positions sort_positions replace_each write_at index_put apply_auto_think
    extract_user_prompt last_user strip_bracket_prefix byte_len starts_with strip_prefix touch track
    make_room
intake-guarded_example =
    intake-guarded crates pages chats open_ai open_door (some []) true 0 analysts server
      (sent_request, "umans-coder") refl

-- The next request of the conversation, five seconds later, with the pool's cursor moved on.
abbrev later_pool : PoolInner
later_pool =
    record (new (
      from_config (record { name = "one"; key = "sk-1"; session = "" })
      ∷ from_config (record { name = "two"; key = "sk-2"; session = "" })
      ∷ [])) { cursor = 1 }
