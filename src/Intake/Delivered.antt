-- ===== src/Intake/Delivered.antt =====
-- When a chat request is sent: the body that the steps of src/routes/chat.rs pass on stays an object.
use mybro.Catalog.{Catalog, flag_at, needs_vision_handoff, resolve_model_id}
use mybro.HandoffCache.{Digest, CacheEntry}
use mybro.Intake.{
  Crates, Shared, Analysts, is_stream, requested_model, over_tools, ask_usage, handoff,
  chat_payload, key_for, chat_send,
}
use mybro.Intake.Sent.{sent_of}
use mybro.Json.{
  Value, null, bool, number, string, array, object, field, end, get, get_then, as_array, insert,
  lookup, put_back, from_list,
}
use mybro.KeyPool.{KeySlot}
use mybro.Lru.{Lru}
use mybro.Payload.{strip_message, strip_reasoning_content, normalize_thinking_payload}
use mybro.Payload.Images.{
  Step, key, index, write_at, ImagePos, in_system, in_message, path_of, positions, sort_positions,
  shared_before, replace_each, limit_images_in_messages,
}
use mybro.Payload.Prompt.{index_put, reasoning_of, apply_auto_think}
use mybro.Prelude.{
  ℕ, ◌-◌, ◌≡◌, refl, ◌∙◌, inl, inr, String, Bool, true, false, not, ◌&&◌, Option, some, List, [],
  ◌∷◌, map, length, take, leb, ◌==◌, Bool-cases, Option-cases, if◌then◌else◌, arith,
}
use mybro.SchemaNorm.{normalize_tool_schemas}
use mybro.Sessions.{Session}

abbrev pub is_object : Value → Bool
is_object (object fs) = true
is_object null = false
is_object (bool b) = false
is_object (number n) = false
is_object (string s) = false
is_object (array vs) = false

is_object-put_back : (k : String) (w v : Value) → is_object (put_back k w v) ≡ is_object v
unfolding put_back
is_object-put_back k w (object fs) = refl
is_object-put_back k w null = refl
is_object-put_back k w (bool b) = refl
is_object-put_back k w (number n) = refl
is_object-put_back k w (string s) = refl
is_object-put_back k w (array vs) = refl

is_object-write_at :
    (k : String) (path : List Step) (new v : Value)
    → is_object (write_at (key k ∷ path) new v) ≡ is_object v
unfolding write_at
is_object-write_at k path new (object fs) = elim (Option-cases (lookup k fs)) [
  | inl e ↦ rw (write_at, e) refl
  | inr (w, e) ↦ rw (write_at, e) refl
]
is_object-write_at k path new null = refl
is_object-write_at k path new (bool b) = refl
is_object-write_at k path new (number n) = refl
is_object-write_at k path new (string s) = refl
is_object-write_at k path new (array vs) = refl

is_object-index_put :
    (k : String) (w v : Value)
    → is_object v ≡ true
    → (out : Value) × (index_put k w v ≡ some out) × (is_object out ≡ true)
unfolding index_put
is_object-index_put k w (object fs) h = (object (insert k w fs), refl, refl)
is_object-index_put k w null h = absurd (ground arith)
is_object-index_put k w (bool b) h = absurd (ground arith)
is_object-index_put k w (number n) h = absurd (ground arith)
is_object-index_put k w (string s) h = absurd (ground arith)
is_object-index_put k w (array vs) h = absurd (ground arith)

is_object-strip_reasoning_content :
    (v : Value) → is_object (strip_reasoning_content v) ≡ is_object v
unfolding strip_reasoning_content
is_object-strip_reasoning_content v = elim (Option-cases (get_then "messages" as_array v)) [
  | inl e ↦ rw (strip_reasoning_content, e) refl
  | inr (ms, e) ↦
      rw (strip_reasoning_content, e)
        (is_object-put_back "messages" (array (from_list (map strip_message ms))) v)
]

is_object-over_tools :
    (to_string : Value → String) (v : Value) → is_object (over_tools to_string v) ≡ is_object v
is_object-over_tools to_string v = elim (Option-cases (get "tools" v)) [
  | inl e ↦ rw (over_tools, e) refl
  | inr (t, e) ↦
      rw (over_tools, e) (is_object-put_back "tools" (normalize_tool_schemas to_string t) v)
]

is_object-replace_each :
    (ps : List ImagePos) (v : Value) → is_object (replace_each ps v) ≡ is_object v
unfolding replace_each path_of
is_object-replace_each [] v = refl
is_object-replace_each (in_system i ∷ ps) v =
    is_object-replace_each ps (write_at (path_of (in_system i)) shared_before v)
    ∙ is_object-write_at "system" (index i ∷ []) shared_before v
is_object-replace_each (in_message mi ci ∷ ps) v =
    is_object-replace_each ps (write_at (path_of (in_message mi ci)) shared_before v)
    ∙ is_object-write_at "messages" (index mi ∷ key "content" ∷ index ci ∷ []) shared_before v

is_object-limit_images_in_messages :
    (n : ℕ) (v : Value) → is_object (limit_images_in_messages n v) ≡ is_object v
unfolding limit_images_in_messages
is_object-limit_images_in_messages n v =
    let over = take (length (positions v) - n) (sort_positions (positions v)) in
    elim (Bool-cases (n == 0)) [
      | inl e ↦ rw (limit_images_in_messages, e) refl
      | inr e ↦ elim (Bool-cases (leb (length (positions v)) n)) [
        | inl f ↦ rw (limit_images_in_messages, e, f) refl
        | inr f ↦ rw (limit_images_in_messages, e, f) (is_object-replace_each over v)
      ]
    ]

is_object-apply_auto_think :
    (catalog : Option Catalog) (model : String) (v : Value)
    → is_object v ≡ true
    → (out : Value) × (apply_auto_think catalog model v ≡ some out)
unfolding apply_auto_think
is_object-apply_auto_think catalog model v h = elim (Option-cases (reasoning_of catalog model)) [
  | inl e ↦ (v, rw (apply_auto_think, e) refl)
  | inr (r, e) ↦ elim (Bool-cases (flag_at "supported" r && not (flag_at "can_disable" r))) [
    | inr f ↦ (v, rw (apply_auto_think, e, f) refl)
    | inl f ↦
        let (out, put, _) =
          is_object-index_put "thinking" (object (field "type" (string "adaptive") end)) v h in
        (out, rw (apply_auto_think, e, f) put)
  ]
]

module _ (crates : Crates) (lru : Lru Digest CacheEntry) (sessions : Lru String Session) where
  is_object-chat_payload :
      (st : Shared crates lru sessions) (model : String) (payload : Value)
      → is_object payload ≡ true
      → (out : Value) × (chat_payload crates lru sessions st model payload ≡ some out)
  unfolding chat_payload
  is_object-chat_payload st model payload h =
      let (named, put, ok) =
        is_object-index_put "model" (string model) (strip_reasoning_content payload)
          (is_object-strip_reasoning_content payload ∙ h) in
      let tools = over_tools crates.to_string named in
      let tools_ok : is_object tools ≡ true = is_object-over_tools crates.to_string named ∙ ok in
      let images =
        if needs_vision_handoff st.catalog model st.config
        then tools
        else limit_images_in_messages st.config.max_images tools in
      let still : is_object images ≡ true =
        elim (Bool-cases (needs_vision_handoff st.catalog model st.config)) [
          | inl f ↦ rw f tools_ok
          | inr f ↦ rw f (is_object-limit_images_in_messages st.config.max_images tools ∙ tools_ok)
        ] in
      let (out, think) = is_object-apply_auto_think st.catalog model images still in
      (normalize_thinking_payload out, rw (chat_payload, put, think) refl)

  -- A chat request whose body is an object, which has got a key and whose first prompt can be logged, is
  -- sent upstream, whatever else it holds, for any model that takes images itself.
  pub chat_send-sent :
      (now : ℕ) (analysts : Analysts crates lru sessions) (payload : Value)
      (st : Shared crates lru sessions) (slot : KeySlot)
      → (key_for crates lru sessions now payload st).0 ≡ some (slot, true)
      → is_object payload ≡ true
      → (let st' = (key_for crates lru sessions now payload st).1 in
          needs_vision_handoff st'.catalog
            (resolve_model_id st'.catalog (requested_model payload) st'.config)
            st'.config
          ≡ false)
      → (sent : Value × String) × (sent_of (chat_send crates lru sessions now analysts payload st).0
          ≡ some sent)
  unfolding chat_send handoff
  chat_send-sent now analysts payload st slot got h plain =
      let st' = (key_for crates lru sessions now payload st).1 in
      let model = resolve_model_id st'.catalog (requested_model payload) st'.config in
      let (ready, made) = is_object-chat_payload st' model payload h in
      let passed : handoff crates lru sessions analysts st' model ready
          ≡ some (ready, st'.handoff_cache) =
        rw (handoff, plain) refl in
      (
        (if is_stream payload then ask_usage ready else ready, model),
        rw (chat_send, got, made, passed) refl,
      )
