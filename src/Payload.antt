-- ===== src/Payload.antt =====
-- src/payload.rs: what the pipelines change in a request's JSON before they send it on.
-- Each function takes the payload and gives the one that its in-place changes leave.
pub mod Reasoning
pub mod Thinking
pub mod Images
pub mod Order
pub mod Limit
pub mod Prompt
mod Examples
use mybro.Json.{
  Value, null, bool, number, string, array, object, Fields, get, get_then, as_array, as_str, insert,
  remove, lookup, contains_key, to_list, from_list, put_back, as_object,
}
use mybro.Prelude.{
  String, str_eq, Bool, true, false, not, ◌&&◌, ◌||◌, Option, none, some, List, [], ◌∷◌, map,
  if◌then◌else◌,
}

-- `and_then(|r| r.as_str()) == Some(role)` below a field.
abbrev pub field_is : String → String → Value → Bool
field_is k text v = elim (get_then k as_str v) [ none ↦ false | some s ↦ str_eq s text ]

-- `as_object_mut` and two removals.
unfoldable pub drop_reasoning : Value → Value
drop_reasoning (object fs) = object (remove "reasoningContent" (remove "reasoning_content" fs))
drop_reasoning null = null
drop_reasoning (bool b) = bool b
drop_reasoning (number n) = number n
drop_reasoning (string s) = string s
drop_reasoning (array vs) = array vs

unfoldable pub strip_message : Value → Value
strip_message msg = if field_is "role" "assistant" msg then drop_reasoning msg else msg

unfoldable pub strip_reasoning_content : Value → Value
strip_reasoning_content payload = elim (get_then "messages" as_array payload) [
  | none ↦ payload
  | some messages ↦ put_back "messages" (array (from_list (map strip_message messages))) payload
]

unfoldable pub rename_budget : Fields → Fields
rename_budget thinking =
    if contains_key "budgetTokens" thinking && not (contains_key "budget_tokens" thinking)
    then elim (lookup "budgetTokens" thinking) [
      | none ↦ thinking
      | some v ↦ insert "budget_tokens" v (remove "budgetTokens" thinking)
    ]
    else thinking

unfoldable pub normalize_thinking_payload : Value → Value
normalize_thinking_payload payload = elim (get_then "thinking" as_object payload) [
  | none ↦ payload
  | some thinking ↦ put_back "thinking" (object (rename_budget thinking)) payload
]

unfoldable pub is_image_part : Value → Bool
is_image_part part = field_is "type" "image_url" part || field_is "type" "image" part

-- The text of the first text part that has one.
unfoldable pub first_text : List Value → String
first_text [] = ""
first_text (part ∷ parts) =
    let rest = first_text parts in
    if field_is "type" "text" part
    then elim (get_then "text" as_str part) [ none ↦ rest | some text ↦ text ]
    else rest

unfoldable pub msg_text : Value → String
msg_text m = elim (get_then "content" as_str m) [
  | some s ↦ s
  | none ↦ elim (get_then "content" as_array m) [ none ↦ "" | some arr ↦ first_text arr ]
]

-- The text that the fingerprint is taken of, for the first user message that has one.
unfoldable pub first_user_text : List Value → Option String
first_user_text [] = none
first_user_text (msg ∷ msgs) =
    let rest = first_user_text msgs in
    if field_is "role" "user" msg
    then if str_eq (msg_text msg) "" then rest else some (msg_text msg)
    else rest

-- `hash` is the MD5 of a text in hexadecimal, cut to 12 digits.
unfoldable pub fingerprint_payload : (String → String) → Value → String
fingerprint_payload hash payload = elim (get_then "messages" as_array payload) [
  | none ↦ ""
  | some messages ↦ elim (first_user_text messages) [ none ↦ "" | some text ↦ hash text ]
]
