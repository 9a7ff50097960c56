-- ===== src/ErrorLog.antt =====
-- src/errlog.rs: the redaction of headers and bodies for the error log. Writing to the file is left out.
-- `to_lowercase` is that of the standard library.
pub mod Redacted
mod Examples
use mathlib.Core.Option
use mybro.Json.{
  Value, Items, Fields, null, bool, number, string, array, object, nil, cons, end, field, insert,
  as_str,
}
use mybro.Prelude.{
  String, str_eq, str_append, byte_len, slice_to, contains, Bool, true, false, ◌&&◌, ◌||◌, Option,
  none, some, List, [], ◌∷◌, ltb, if◌then◌else◌,
}

abbrev pub redacted : Value
redacted = string "[REDACTED]"

abbrev pub any_eq : List String → String → Bool
any_eq [] s = false
any_eq (t ∷ ts) s = str_eq t s || any_eq ts s

unfoldable pub any_in : List String → String → Bool
unfolding contains
any_in [] s = false
any_in (t ∷ ts) s = contains t s || any_in ts s

unfoldable pub should_redact_header : String → Bool
unfolding any_in
should_redact_header name =
    any_eq ("authorization" ∷ "x-api-key" ∷ "cookie" ∷ "set-cookie" ∷ "api-key" ∷ []) name
    || any_in ("auth" ∷ "token" ∷ "key" ∷ "password" ∷ "secret" ∷ []) name

-- `to_str().unwrap_or("[binary]")`.
abbrev pub header_text : Option String → String
header_text none = "[binary]"
header_text (some s) = s

-- A header is its name and its value, `none` for one that is no text; `map` is what was inserted before.
unfoldable pub redact_into : (String → String) → List (String × Option String) → Fields → Fields
unfolding should_redact_header
redact_into to_lowercase [] map = map
redact_into to_lowercase ((k, v) ∷ headers) map =
    let name = to_lowercase k in
    let value = if should_redact_header name then redacted else string (header_text v) in
    redact_into to_lowercase headers (insert name value map)

unfoldable pub redact_headers : (String → String) → List (String × Option String) → Value
unfolding redact_into
redact_headers to_lowercase headers = object (redact_into to_lowercase headers end)

abbrev pub is_sensitive : String → Bool
is_sensitive key =
    any_eq ("api_key" ∷ "apikey" ∷ "token" ∷ "password" ∷ "secret" ∷ "authorization" ∷ []) key

-- A content that is a long text is cut; `none` is the panic of the slice inside a character.
unfoldable pub cut_content : Value → Option Value
unfolding byte_len slice_to
cut_content v = elim (as_str v) [
  | none ↦ some v
  | some s ↦
      if ltb 2000 (byte_len s)
      then elim (slice_to 2000 s) [
        | none ↦ none
        | some start ↦ some (string (str_append start "...[truncated]"))
      ]
      else some v
]

-- What a field's key says of its value.
pub data Treatment : Type 0 where
  replace cut inside_messages outside : Treatment

abbrev pub is_inside : Treatment → Bool
is_inside replace = false
is_inside cut = false
is_inside inside_messages = true
is_inside outside = false

-- The new value of a field: `deeper` is what the recursion makes of the old one.
abbrev pub treated : Treatment → Value → Option Value → Option Value
treated replace v deeper = some redacted
treated cut v deeper = cut_content v
treated inside_messages v deeper = deeper
treated outside v deeper = deeper

abbrev pub both {ℓ κ μ} :
    {A : Type ℓ} {B : Type κ} {D : Type μ} → (A → B → D) → Option A → Option B → Option D
both f none b = none
both f (some a) none = none
both f (some a) (some b) = some (f a b)

module _ (to_lowercase : String → String) where
  unfoldable pub treatment : Bool → String → Treatment
  treatment in_messages k =
      let key = to_lowercase k in
      if is_sensitive key
      then replace
      else if str_eq key "messages"
      then inside_messages
      else if in_messages && str_eq key "content"
      then cut
      else outside

  unfoldable mutual
    unfolding treatment cut_content

    pub redact_value_in_place : Bool → Value → Option Value
    redact_value_in_place in_messages (object fs) = Option.map object (redact_fields in_messages fs)
    redact_value_in_place in_messages (array vs) = Option.map array (redact_items in_messages vs)
    redact_value_in_place in_messages null = some null
    redact_value_in_place in_messages (bool b) = some (bool b)
    redact_value_in_place in_messages (number n) = some (number n)
    redact_value_in_place in_messages (string s) = some (string s)

    pub redact_items : Bool → Items → Option Items
    redact_items in_messages nil = some nil
    redact_items in_messages (cons v vs) =
        both cons (redact_value_in_place in_messages v) (redact_items in_messages vs)

    pub redact_fields : Bool → Fields → Option Fields
    redact_fields in_messages end = some end
    redact_fields in_messages (field k v fs) =
        let t = treatment in_messages k in
        both (field k) (treated t v (redact_value_in_place (is_inside t) v))
          (redact_fields in_messages fs)

  unfoldable pub redact_body_json : Value → Option Value
  unfolding redact_value_in_place
  redact_body_json body = redact_value_in_place false body
