-- ===== src/Payload/Prompt.antt =====
-- src/payload.rs: the prompt that is logged, and the thinking that a model cannot do without.
use Prim.Native.Char.{code}
use mybro.Catalog.{Catalog, find, flag_at}
use mybro.Json.{
  Value, null, bool, number, string, array, object, field, end, get_then, as_array, insert,
}
use mybro.Payload.{field_is, msg_text}
use mybro.Prelude.{
  String, not, ◌&&◌, Option, none, some, List, [], ◌∷◌, trim_start, ◌==◌, if◌then◌else◌,
}

-- What stands after the first `]`.
unfoldable pub after_bracket : String → Option String
after_bracket String.[] = none
after_bracket (String.◌∷◌ c s) = let rest = after_bracket s in if code c == 93 then some s else rest

unfoldable pub strip_bracket_prefix : String → String
unfolding after_bracket trim_start
strip_bracket_prefix String.[] = String.[]
strip_bracket_prefix (String.◌∷◌ c s) =
    if code c == 91
    then elim (after_bracket s) [ none ↦ String.◌∷◌ c s | some after ↦ trim_start after ]
    else String.◌∷◌ c s

-- The last message of a user.
unfoldable pub last_user : List Value → Option Value
last_user [] = none
last_user (msg ∷ msgs) = elim (last_user msgs) [
  | some m ↦ some m
  | none ↦ if field_is "role" "user" msg then some msg else none
]

unfoldable pub extract_user_prompt : Value → String
unfolding last_user msg_text strip_bracket_prefix
extract_user_prompt payload = elim (get_then "messages" as_array payload) [
  | none ↦ ""
  | some messages ↦ elim (last_user messages) [
    | none ↦ ""
    | some msg ↦ strip_bracket_prefix (msg_text msg)
  ]
]

-- `payload[k] = v`; `none` is the panic on what is neither an object nor null.
unfoldable pub index_put : String → Value → Value → Option Value
index_put k v (object fs) = some (object (insert k v fs))
index_put k v null = some (object (field k v end))
index_put k v (bool b) = none
index_put k v (number n) = none
index_put k v (string s) = none
index_put k v (array vs) = none

-- The reasoning that the catalog tells of a model.
abbrev pub reasoning_of : Option Catalog → String → Option Value
reasoning_of none resolved_model = none
reasoning_of (some cat) resolved_model = elim (find resolved_model cat.info) [
  | none ↦ none
  | some info ↦ get_then "capabilities" (get_then "reasoning" some) info
]

unfoldable pub apply_auto_think : Option Catalog → String → Value → Option Value
unfolding index_put
apply_auto_think catalog resolved_model payload = elim (reasoning_of catalog resolved_model) [
  | none ↦ some payload
  | some reasoning ↦
      if flag_at "supported" reasoning && not (flag_at "can_disable" reasoning)
      then index_put "thinking" (object (field "type" (string "adaptive") end)) payload
      else some payload
]
