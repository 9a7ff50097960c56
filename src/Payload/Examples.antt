-- ===== src/Payload/Examples.antt =====
-- The payload's changes at a concrete request: the theorems applied.
use mybro.Json.{
  put_back, as_object, Value, Fields, string, array, object, number, pos_int, nil, cons, field, end,
  lookup, insert, remove, get, as_str, as_array, contains_key, to_list, from_list,
}
use mybro.Payload.{
  strip_message, strip_reasoning_content, drop_reasoning, rename_budget, normalize_thinking_payload,
  fingerprint_payload, is_image_part, msg_text, first_text, first_user_text,
}
use mybro.Payload.Images.{
  write_at, in_message, path_of, positions_from, message_positions, positions, insert_pos,
  sort_positions, shared_before, replace_each, limit_images_in_messages,
}
use mybro.Payload.Limit.{limit_images_in_messages-positions}
use mybro.Payload.Prompt.{
  after_bracket, strip_bracket_prefix, last_user, extract_user_prompt, index_put, apply_auto_think,
}
use mybro.Prelude.{[], ◌∷◌, trim_start, is_whitespace, arith, ◌≡◌, refl}

program : Unit {0}
unfolding last_user extract_user_prompt index_put apply_auto_think strip_message
    strip_reasoning_content drop_reasoning put_back rename_budget normalize_thinking_payload
    as_object fingerprint_payload is_image_part msg_text first_text first_user_text lookup insert
    remove get as_str as_array contains_key to_list from_list
program = tt

abbrev reply : Value
reply = object (field "role" (string "assistant") (field "reasoning_content" (string "hm") end))

abbrev question : Value
question = object (field "role" (string "user") (field "content" (string "hello") end))

abbrev request : Value
request = object (field "messages" (array (cons question (cons reply nil))) end)

abbrev thinking : Fields
thinking = field "type" (string "enabled") (field "budgetTokens" (number (pos_int 512)) end)

abbrev image : Value
image = object (field "type" (string "image") end)

abbrev shown : Value → Value
shown part = object (field "content" (array (cons part (cons image nil))) end)

abbrev gallery : Value
gallery = object (field "messages" (array (cons (shown image) (cons (shown question) nil))) end)

-- Of three images, one may stay.
limited :
    limit_images_in_messages 1 gallery
    ≡ object (
        field "messages"
          (array (
            cons
              (object (field "content" (array (cons shared_before (cons shared_before nil))) end))
              (cons (shown question) nil)))
          end)
unfolding limit_images_in_messages positions message_positions positions_from is_image_part
    sort_positions insert_pos replace_each path_of write_at get lookup insert as_array as_str
    to_list from_list
limited = refl

limit_images_in_messages-positions_example :
    positions (limit_images_in_messages 1 gallery) ≡ in_message 1 1 ∷ []
unfolding positions message_positions positions_from is_image_part get lookup as_array as_str
    to_list
limit_images_in_messages-positions_example =
    limit_images_in_messages-positions 1 gallery (omega arith)

-- A prefix in brackets, and an empty one, which goes as well.
prefixed : strip_bracket_prefix "[ctx] hello" ≡ "hello"
unfolding strip_bracket_prefix after_bracket trim_start is_whitespace
prefixed = refl

empty_prefix : strip_bracket_prefix "[] hello" ≡ "hello"
unfolding strip_bracket_prefix after_bracket trim_start is_whitespace
empty_prefix = refl
