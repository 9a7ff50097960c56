-- ===== src/Intake/Sent.antt =====
-- What the pipelines send.
use mybro.Access.{ApiFormat, open_ai, anthropic}
use mybro.Payload.Images.{limit_images_in_messages}
use mybro.Payload.Prompt.{index_put}
use mybro.Catalog.{resolve_model_id}
use mybro.HandoffCache.{Digest, CacheEntry}
use mybro.Intake.{
  Crates, Outcome, replied, panicked, pending, forwarded, Shared, Analysts, preferred_of, is_stream,
  requested_model, ask_usage, handoff, chat_payload, key_for, chat_send, messages_payload,
  messages_send, over_tools,
}
use mybro.Intake.Fields.{
  get-ask_usage, get-over_tools, get-index_put_self, get-limit_images_in_messages,
  get-normalize_thinking_payload,
}
use mybro.Intake.Model.{get-handoff, get-chat_payload}
use mybro.Json.{Value, null, string, get, as_str}
use mybro.KeyPool.{acquire}
use mybro.Lru.{Lru}
use mybro.Payload.{fingerprint_payload, normalize_thinking_payload}
use mybro.Prelude.{
  ℕ, ◌≡◌, refl, sym, ap, ◌∙◌, inl, inr, String, Bool, true, false, not, Option, none, some,
  Bool-cases, Option-cases, if◌then◌else◌, arith,
}
use mybro.Sessions
use mybro.Sessions.{Session}

-- What an outcome sends, with the model and whether it is a stream.
abbrev pub sent_of : Outcome → Option (Value × String)
sent_of (replied n v) = none
sent_of panicked = none
sent_of pending = none
sent_of (forwarded v s model streams) = some (v, model)

get-if_ask_usage :
    (b : Bool) (v : Value) → get "model" (if b then ask_usage v else v) ≡ get "model" v
get-if_ask_usage true v = get-ask_usage v
get-if_ask_usage false v = refl

module _ (crates : Crates) (lru : Lru Digest CacheEntry) (sessions : Lru String Session) where
  -- Finding a key changes neither the configuration nor the catalog.
  key_for-resolve_model_id :
      (now : ℕ) (payload : Value) (name : String) (st : Shared crates lru sessions)
      → let st' = (key_for crates lru sessions now payload st).1 in
        resolve_model_id st'.catalog name st'.config ≡ resolve_model_id st.catalog name st.config
  unfolding key_for
  key_for-resolve_model_id now payload name st =
      let touched =
        Sessions.touch sessions (fingerprint_payload crates.md5_hex payload) st.conv_map in
      elim (Option-cases (acquire now (preferred_of touched.0) st.pool).0) [
        | inl e ↦ rw (key_for, e) refl
        | inr (s, e) ↦ rw (key_for, e) refl
      ]

  chat_send-model :
      (now : ℕ) (analysts : Analysts crates lru sessions) (payload : Value)
      (st : Shared crates lru sessions) (sent : Value) (model : String)
      → sent_of (chat_send crates lru sessions now analysts payload st).0 ≡ some (sent, model)
      → (get "model" sent ≡ some (string model))
        × (model ≡ resolve_model_id st.catalog (requested_model payload) st.config)
  unfolding chat_send
  chat_send-model now analysts payload st sent model h =
      let r = key_for crates lru sessions now payload st in
      let st' = r.1 in
      let chosen = resolve_model_id st'.catalog (requested_model payload) st'.config in
      let same_model : chosen ≡ resolve_model_id st.catalog (requested_model payload) st.config =
        key_for-resolve_model_id now payload (requested_model payload) st in
      elim (Option-cases r.0) [
        | inl e ↦
            absurd (let q : none ≡ some (sent, model) = rw (chat_send, e) at h in ground arith)
        | inr (got, e) ↦ elim (Bool-cases (not got.1)) [
          | inl f ↦
              absurd (let q : none ≡ some (sent, model) = rw (chat_send, e, f) at h in ground arith)
          | inr f ↦ elim (Option-cases (chat_payload crates lru sessions st' chosen payload)) [
            | inl g ↦
                absurd
                  (let q : none ≡ some (sent, model) = rw (chat_send, e, f, g) at h in ground arith)
            | inr (ready, g) ↦
                elim (Option-cases (handoff crates lru sessions analysts st' chosen ready)) [
                  | inl k ↦ absurd (
                      let q : none ≡ some (sent, model) = rw (chat_send, e, f, g, k) at h in
                      ground arith)
                  | inr (out, k) ↦
                      let q : some ((if is_stream payload then ask_usage out.0 else out.0), chosen)
                          ≡ some (sent, model) =
                        rw (chat_send, e, f, g, k) at h in
                      let value_of = λ (o : Option (Value × String)). elim o as (λ c. Value) [
                        | none ↦ null
                        | some p ↦ p.0
                      ] in
                      let name_of = λ (o : Option (Value × String)). elim o as (λ c. String) [
                        | none ↦ ""
                        | some p ↦ p.1
                      ] in
                      let named : chosen ≡ model = ap name_of q in
                      (
                        ap (get "model") (sym (ap value_of q))
                            ∙ get-if_ask_usage (is_stream payload) out.0
                            ∙ get-handoff crates lru sessions analysts st' chosen ready out k
                            ∙ get-chat_payload crates lru sessions analysts st' chosen payload ready
                                g
                            ∙ ap (λ m. some (string m)) named,
                        sym named ∙ same_model,
                      )
                ]
          ]
        ]
      ]

-- The name in a field `model`.
abbrev name_from : Option Value → String
name_from o =
    elim (elim o as (λ c. Option String) [ none ↦ none | some v ↦ as_str v ]) as (λ c. String) [
      | none ↦ ""
      | some s ↦ s
    ]

requested_model-normalize_thinking_payload :
    (v : Value) → requested_model (normalize_thinking_payload v) ≡ requested_model v
requested_model-normalize_thinking_payload v = ap name_from (get-normalize_thinking_payload v)

module _ (crates : Crates) (lru : Lru Digest CacheEntry) (sessions : Lru String Session) where
  get-messages_payload :
      (st : Shared crates lru sessions) (model : String) (payload out : Value)
      → messages_payload crates lru sessions st model payload ≡ some out
      → get "model" out ≡ some (string model)
  unfolding messages_payload
  get-messages_payload st model payload out h =
      elim (Option-cases (index_put "model" (string model) (normalize_thinking_payload payload))) [
        | inl e ↦ absurd (let q : none ≡ some out = rw (messages_payload, e) at h in ground arith)
        | inr (named, e) ↦
            let q : some (limit_images_in_messages st.config.max_images named) ≡ some out =
              rw (messages_payload, e) at h in
            let same : limit_images_in_messages st.config.max_images named ≡ out = ground arith in
            ap (get "model") (sym same)
            ∙ get-limit_images_in_messages st.config.max_images named
            ∙ get-index_put_self "model" (string model) (normalize_thinking_payload payload) named
                refl e
      ]

  messages_send-model :
      (now : ℕ) (analysts : Analysts crates lru sessions) (payload : Value)
      (st : Shared crates lru sessions) (sent : Value) (model : String)
      → sent_of (messages_send crates lru sessions now analysts payload st).0 ≡ some (sent, model)
      → (get "model" sent ≡ some (string model))
        × (model ≡ resolve_model_id st.catalog (requested_model payload) st.config)
  unfolding messages_send
  messages_send-model now analysts payload st sent model h =
      let r = key_for crates lru sessions now payload st in
      let st' = r.1 in
      let asked = requested_model (normalize_thinking_payload payload) in
      let chosen = resolve_model_id st'.catalog asked st'.config in
      elim (Option-cases r.0) [
        | inl e ↦
            absurd (let q : none ≡ some (sent, model) = rw (messages_send, e) at h in ground arith)
        | inr (got, e) ↦ elim (Bool-cases (not got.1)) [
          | inl f ↦
              absurd
                (let q : none ≡ some (sent, model) = rw (messages_send, e, f) at h in ground arith)
          | inr f ↦ elim (Option-cases (messages_payload crates lru sessions st' chosen payload)) [
            | inl g ↦ absurd (
                let q : none ≡ some (sent, model) = rw (messages_send, e, f, g) at h in
                ground arith)
            | inr (ready, g) ↦
                elim (Option-cases (handoff crates lru sessions analysts st' chosen ready)) [
                  | inl k ↦ absurd (
                      let q : none ≡ some (sent, model) = rw (messages_send, e, f, g, k) at h in
                      ground arith)
                  | inr (out, k) ↦
                      let q : some (over_tools crates.to_string out.0, chosen)
                          ≡ some (sent, model) =
                        rw (messages_send, e, f, g, k) at h in
                      let value_of = λ (o : Option (Value × String)). elim o as (λ c. Value) [
                        | none ↦ null
                        | some p ↦ p.0
                      ] in
                      let name_of = λ (o : Option (Value × String)). elim o as (λ c. String) [
                        | none ↦ ""
                        | some p ↦ p.1
                      ] in
                      let named : chosen ≡ model = ap name_of q in
                      (
                        ap (get "model") (sym (ap value_of q))
                            ∙ get-over_tools crates.to_string out.0
                            ∙ get-handoff crates lru sessions analysts st' chosen ready out k
                            ∙ get-messages_payload st' chosen payload ready g
                            ∙ ap (λ m. some (string m)) named,
                        sym named
                            ∙ key_for-resolve_model_id crates lru sessions now payload asked st
                            ∙ ap (λ m. resolve_model_id st.catalog m st.config)
                                (requested_model-normalize_thinking_payload payload),
                      )
                ]
          ]
        ]
      ]

  -- The rest of a pipeline before its upstream call.
  abbrev pub send :
      ApiFormat
      → ℕ
      → Analysts crates lru sessions
      → Value
      → Shared crates lru sessions
      → Outcome × Shared crates lru sessions
  send open_ai = chat_send crates lru sessions
  send anthropic = messages_send crates lru sessions

  -- In both pipelines, whatever a request asks for, the payload that is sent for it names the model that
  -- its model resolves to, after every change on the way, described images and trimmed ones included.
  pub send-model :
      (format : ApiFormat) (now : ℕ) (analysts : Analysts crates lru sessions) (payload : Value)
      (st : Shared crates lru sessions) (sent : Value) (model : String)
      → sent_of (send format now analysts payload st).0 ≡ some (sent, model)
      → (get "model" sent ≡ some (string model))
        × (model ≡ resolve_model_id st.catalog (requested_model payload) st.config)
  send-model open_ai now analysts payload st sent model h =
      chat_send-model crates lru sessions now analysts payload st sent model h
  send-model anthropic now analysts payload st sent model h =
      messages_send-model now analysts payload st sent model h
