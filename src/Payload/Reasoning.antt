-- ===== src/Payload/Reasoning.antt =====
-- Stripping the reasoning of assistant messages.
use mybro.Json.{
  put_back, Value, null, bool, number, string, array, object, get, get_then, as_array, as_str,
  from_list,
}
use mybro.Json.Objects.{to_list-from_list, lookup-insert, lookup-remove}
use mybro.Payload.{
  field_is, drop_reasoning, strip_message, strip_reasoning_content, fingerprint_payload,
  first_user_text, first_text, msg_text,
}
use mybro.Prelude.{
  String, str_eq, ◌≡◌, refl, sym, ◌∙◌, ap, Bool, false, ◌&&◌, ◌||◌, Option, none, some, List, [],
  ◌∷◌, map, Option-cases, Bool-cases, inl, inr, if◌then◌else◌, arith,
}

-- The keys that carry reasoning.
abbrev pub is_reasoning : String → Bool
is_reasoning k = str_eq "reasoning_content" k || str_eq "reasoningContent" k

pub get-drop_reasoning :
    (k : String) (m : Value) → get k (drop_reasoning m) ≡ (if is_reasoning k then none else get k m)
unfolding get drop_reasoning
get-drop_reasoning k (object fs) =
    rw (lookup-remove "reasoningContent" k, lookup-remove "reasoning_content" k) (ground arith)
get-drop_reasoning k null = ground arith
get-drop_reasoning k (bool b) = ground arith
get-drop_reasoning k (number n) = ground arith
get-drop_reasoning k (string s) = ground arith
get-drop_reasoning k (array vs) = ground arith

-- A message keeps every field, but an assistant's message loses its reasoning.
pub get-strip_message :
    (k : String) (m : Value)
    → get k (strip_message m)
      ≡ (if field_is "role" "assistant" m && is_reasoning k then none else get k m)
unfolding strip_message
get-strip_message k m = elim (Bool-cases (field_is "role" "assistant" m)) [
  | inl e ↦ rw (strip_message, e) (get-drop_reasoning k m)
  | inr e ↦ rw (strip_message, e) refl
]

get-put_back :
    (j k : String) (v w : Value) (p : Value)
    → get k p ≡ some v
    → get j (put_back k w p) ≡ (if str_eq k j then some w else get j p)
unfolding get put_back
get-put_back j k v w (object fs) h = lookup-insert k j w fs
get-put_back j k v w null h = absurd (ground arith)
get-put_back j k v w (bool b) h = absurd (ground arith)
get-put_back j k v w (number n) h = absurd (ground arith)
get-put_back j k v w (string s) h = absurd (ground arith)
get-put_back j k v w (array vs) h = absurd (ground arith)

get_then-some :
    {A : Type 0} (k : String) (f : Value → Option A) (p : Value) (a : A)
    → get_then k f p ≡ some a
    → (v : Value) × (get k p ≡ some v) × (f v ≡ some a)
get_then-some k f p a h = elim (Option-cases (get k p)) [
  | inl e ↦ absurd (ground arith)
  | inr (v, e) ↦ (v, e, ground arith)
]

-- Where the payload has a list of messages, the result has the same messages in the same order, each
-- stripped, and every other field as before. Elsewhere nothing changes.
pub get-strip_reasoning_content :
    (k : String) (p : Value)
    → get k (strip_reasoning_content p) ≡ (elim (get_then "messages" as_array p) [
      | none ↦ get k p
      | some ms ↦
          if str_eq "messages" k then some (array (from_list (map strip_message ms))) else get k p
    ])
unfolding strip_reasoning_content
get-strip_reasoning_content k p = elim (Option-cases (get_then "messages" as_array p)) [
  | inl e ↦ rw (strip_reasoning_content, e) refl
  | inr (ms, e) ↦
      let (v, h, _) = get_then-some "messages" as_array p ms e in
      rw (strip_reasoning_content, e)
        (get-put_back k "messages" v (array (from_list (map strip_message ms))) p h)
]

keeps-get : (k : String) (m : Value) → is_reasoning k ≡ false → get k (strip_message m) ≡ get k m
keeps-get k m h = elim (Bool-cases (field_is "role" "assistant" m)) [
  | inl e ↦ get-strip_message k m ∙ rw (e, h) refl
  | inr e ↦ get-strip_message k m ∙ rw e refl
]

get_then-get :
    {A : Type 0} (k : String) (f : Value → Option A) (m n : Value)
    → get k m ≡ get k n
    → get_then k f m ≡ get_then k f n
get_then-get k f m n h = rw (get_then, h) refl

-- A message's text as a function of its content.
text_of : Option Value → String
text_of content =
    elim (elim content as (λ c. Option String) [ none ↦ none | some v ↦ as_str v ])
      as (λ t. String) [
        | some s ↦ s
        | none ↦
            elim (elim content as (λ c. Option (List Value)) [ none ↦ none | some v ↦ as_array v ])
              as (λ t. String) [ none ↦ "" | some arr ↦ first_text arr ]
      ]

msg_text-get : (m : Value) → msg_text m ≡ text_of (get "content" m)
unfolding msg_text text_of
msg_text-get m = refl

msg_text-strip_message : (m : Value) → msg_text (strip_message m) ≡ msg_text m
msg_text-strip_message m =
    msg_text-get (strip_message m) ∙ ap text_of (keeps-get "content" m refl) ∙ sym (msg_text-get m)

field_is-strip_message :
    (m : Value) → field_is "role" "user" (strip_message m) ≡ field_is "role" "user" m
field_is-strip_message m =
    let s = get_then-get "role" as_str (strip_message m) m (keeps-get "role" m refl) in
    rw (field_is, s) refl

first_user_text-map :
    (ms : List Value) → first_user_text (map strip_message ms) ≡ first_user_text ms
unfolding first_user_text
first_user_text-map [] = refl
first_user_text-map (m ∷ ms) =
    rw (first_user_text, field_is-strip_message m, msg_text-strip_message m, first_user_text-map ms)
      refl

strip-none : (p : Value) → get_then "messages" as_array p ≡ none → strip_reasoning_content p ≡ p
unfolding strip_reasoning_content
strip-none p e = rw (strip_reasoning_content, e) refl

strip-some :
    (p : Value) (ms : List Value)
    → get_then "messages" as_array p ≡ some ms
    → get_then "messages" as_array (strip_reasoning_content p) ≡ some (map strip_message ms)
unfolding as_array
strip-some p ms e =
    let got : get "messages" (strip_reasoning_content p)
        ≡ some (array (from_list (map strip_message ms))) =
      get-strip_reasoning_content "messages" p ∙ rw e refl in
    rw (get_then, got) (ap some (to_list-from_list (map strip_message ms)))

-- Stripping the reasoning does not change the fingerprint of a conversation, whatever the hash.
pub fingerprint_payload-strip :
    (hash : String → String) (p : Value)
    → fingerprint_payload hash (strip_reasoning_content p) ≡ fingerprint_payload hash p
unfolding fingerprint_payload
fingerprint_payload-strip hash p = elim (Option-cases (get_then "messages" as_array p)) [
  | inl e ↦ let q = strip-none p e in rw q refl
  | inr (ms, e) ↦
      let q = strip-some p ms e in rw (fingerprint_payload, q, e, first_user_text-map ms) refl
]
