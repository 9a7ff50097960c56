-- ===== src/Intake/Model.antt =====
-- The model that a forwarded request names.
use mybro.Catalog.{needs_vision_handoff}
use mybro.HandoffCache
use mybro.HandoffCache.{Digest, CacheEntry}
use mybro.Intake.{Crates, Shared, Analysts, over_tools, handoff, chat_payload}
use mybro.Intake.Fields.{
  get-write_at_ne, get-index_put_self, get-over_tools, get-limit_images_in_messages,
  get-normalize_thinking_payload, get-apply_auto_think,
}
use mybro.Json.{Value, string, get}
use mybro.Lru.{Lru}
use mybro.Payload.{strip_reasoning_content, normalize_thinking_payload, field_is}
use mybro.Payload.Images.{Step, key, index, write_at, limit_images_in_messages}
use mybro.Payload.Prompt.{index_put, apply_auto_think}
use mybro.Prelude.{
  ℕ, ◌+◌, ◌≡◌, refl, sym, ap, ◌∙◌, inl, inr, String, str_eq, Bool, true, false, not, Option, none,
  some, List, [], ◌∷◌, ◌++◌, map, length, ◌==◌, Bool-cases, Option-cases, if◌then◌else◌, arith,
}
use mybro.Sessions.{Session}
use mybro.Vision.{
  ImageRef, extract_image_uri, ref_to, items_at, image_refs, content_refs, message_refs,
  collect_image_parts,
}
use mybro.Vision.Handoff.{
  waiting, label, text_part, replace_parts, finished, take_turns, Analyses, perform_vision_handoff,
}

-- Every image is below a field other than `model`.
abbrev Aside : List ImageRef → Type 0
Aside [] = Unit
Aside (img ∷ imgs) =
    ((k : String) × (rest : List Step) × (img.path ≡ key k ∷ rest) × (str_eq k "model" ≡ false))
    × Aside imgs

append-Aside : (xs ys : List ImageRef) → Aside xs → Aside ys → Aside (xs ++ ys)
append-Aside [] ys a b = b
append-Aside (x ∷ xs) ys a b = (a.0, append-Aside xs ys a.1 b)

module _ (k : String) (ne : str_eq k "model" ≡ false) where
  ref_to-Aside : (rest : List Step) (part : Value) → Aside (ref_to (key k ∷ rest) part)
  ref_to-Aside rest part = elim (Option-cases (extract_image_uri part)) [
    | inl e ↦ rw (ref_to, e) tt
    | inr (uri, e) ↦ rw (ref_to, e) ((k, rest, refl, ne), tt)
  ]

  image_refs-Aside :
      (rest : List Step) (i : ℕ) (parts : List Value) → Aside (image_refs (key k ∷ rest) i parts)
  unfolding image_refs
  image_refs-Aside rest i [] = tt
  image_refs-Aside rest i (part ∷ parts) =
      append-Aside (ref_to (key k ∷ (rest ++ index i ∷ [])) part)
        (image_refs (key k ∷ rest) (i + 1) parts) (ref_to-Aside (rest ++ index i ∷ []) part)
        (image_refs-Aside rest (i + 1) parts)

  nested-Aside :
      (b : Bool) (rest : List Step) (parts : List Value)
      → Aside (if b then image_refs (key k ∷ rest) 0 parts else [])
  nested-Aside true rest parts = image_refs-Aside rest 0 parts
  nested-Aside false rest parts = tt

  content_refs-Aside :
      (rest : List Step) (i : ℕ) (parts : List Value) → Aside (content_refs (key k ∷ rest) i parts)
  unfolding content_refs
  content_refs-Aside rest i [] = tt
  content_refs-Aside rest i (part ∷ parts) =
      let here = rest ++ index i ∷ [] in
      let nested =
        if field_is "type" "tool_result" part
        then image_refs (key k ∷ (here ++ key "content" ∷ [])) 0 (items_at "content" part)
        else [] in
      append-Aside (ref_to (key k ∷ here) part ++ nested)
        (content_refs (key k ∷ rest) (i + 1) parts)
        (append-Aside (ref_to (key k ∷ here) part) nested (ref_to-Aside here part) (
          nested-Aside (field_is "type" "tool_result" part) (here ++ key "content" ∷ [])
            (items_at "content" part)))
        (content_refs-Aside rest (i + 1) parts)

message_refs-Aside : (mi : ℕ) (msgs : List Value) → Aside (message_refs mi msgs)
unfolding message_refs
message_refs-Aside mi [] = tt
message_refs-Aside mi (msg ∷ msgs) =
    append-Aside
      (content_refs (key "messages" ∷ index mi ∷ key "content" ∷ []) 0 (items_at "content" msg))
      (message_refs (mi + 1) msgs)
      (content_refs-Aside "messages" refl (index mi ∷ key "content" ∷ []) 0
        (items_at "content" msg))
      (message_refs-Aside (mi + 1) msgs)

collect_image_parts-Aside : (payload : Value) → Aside (collect_image_parts payload)
unfolding collect_image_parts
collect_image_parts-Aside payload =
    append-Aside (image_refs (key "system" ∷ []) 0 (items_at "system" payload))
      (message_refs 0 (items_at "messages" payload))
      (image_refs-Aside "system" refl [] 0 (items_at "system" payload))
      (message_refs-Aside 0 (items_at "messages" payload))

get-replace_parts :
    (count i : ℕ) (imgs : List ImageRef) (descs : List String) (v : Value)
    → Aside imgs
    → get "model" (replace_parts count i imgs descs v) ≡ get "model" v
unfolding replace_parts
get-replace_parts count i [] descs v a = refl
get-replace_parts count i (img ∷ imgs) [] v a = refl
get-replace_parts count i (img ∷ imgs) (desc ∷ descs) v ((k, rest, path, ne), a) =
    let new = text_part (label count i desc) in
    get-replace_parts count (i + 1) imgs descs (write_at img.path new v) a
    ∙ ap (λ p. get "model" (write_at p new v)) path
    ∙ get-write_at_ne k "model" rest new v ne

module _ (crates : Crates) (lru : Lru Digest CacheEntry) (sessions : Lru String Session)
    (analysts : Analysts crates lru sessions) (st : Shared crates lru sessions)
    (model : String) where
  get-perform_vision_handoff :
      (cached : Bool) (payload : Value) (r : Value × ℕ × HandoffCache.State lru)
      → perform_vision_handoff lru crates.sha256 crates.from_slice crates.status_text st.catalog
          model st.config cached analysts.answer analysts.turns st.handoff_cache payload
        ≡ some r
      → get "model" r.0 ≡ get "model" payload
  unfolding perform_vision_handoff
  get-perform_vision_handoff cached payload r h =
      let imgs = collect_image_parts payload in
      let start : Analyses lru crates.sha256 crates.from_slice crates.status_text = record {
        progress = map (λ img. waiting) imgs;
        cache = st.handoff_cache;
      } in
      let over =
        take_turns lru crates.sha256 crates.from_slice crates.status_text cached imgs
          analysts.answer analysts.turns start in
      let first_of = λ (o : Option (Value × ℕ × HandoffCache.State lru)).
        elim o as (λ c. Option Value) [ none ↦ none | some p ↦ get "model" p.0 ] in
      elim (Bool-cases (not (needs_vision_handoff st.catalog model st.config))) [
        | inl e ↦ let q = rw (perform_vision_handoff, e) at h in ap first_of (sym q)
        | inr e ↦ elim (Bool-cases (length imgs == 0)) [
          | inl f ↦ let q = rw (perform_vision_handoff, e, f) at h in ap first_of (sym q)
          | inr f ↦ elim (Option-cases (finished over.progress)) [
            | inl g ↦
                absurd (
                  let q : none ≡ some r = rw (perform_vision_handoff, e, f, g) at h in ground arith)
            | inr (descs, g) ↦
                let q = rw (perform_vision_handoff, e, f, g) at h in
                ap first_of (sym q)
                ∙ get-replace_parts (length imgs) 0 imgs descs payload
                    (collect_image_parts-Aside payload)
          ]
        ]
      ]

  pub get-handoff :
      (payload : Value) (r : Value × HandoffCache.State lru)
      → handoff crates lru sessions analysts st model payload ≡ some r
      → get "model" r.0 ≡ get "model" payload
  unfolding handoff
  get-handoff payload r h = elim (Bool-cases (needs_vision_handoff st.catalog model st.config)) [
    | inr e ↦
        let q : some (payload, st.handoff_cache) ≡ some r = rw (handoff, e) at h in
        ap (λ o. elim o as (λ c. Option Value) [ none ↦ none | some p ↦ get "model" p.0 ]) (sym q)
    | inl e ↦ elim (Option-cases over) [
      | inl f ↦ absurd (let q : none ≡ some r = rw (handoff, e, f) at h in ground arith)
      | inr (t, f) ↦
          let q : some (t.0, t.2) ≡ some r = rw (handoff, e, f) at h in
          ap (λ o. elim o as (λ c. Option Value) [ none ↦ none | some p ↦ get "model" p.0 ]) (sym q)
          ∙ get-perform_vision_handoff st.config.vision_handoff_cache_enabled payload t f
    ]
  ]
    where
      over : Option (Value × ℕ × HandoffCache.State lru)
      over =
          perform_vision_handoff lru crates.sha256 crates.from_slice crates.status_text st.catalog
            model st.config st.config.vision_handoff_cache_enabled analysts.answer analysts.turns
            st.handoff_cache payload

  pub get-chat_payload :
      (payload out : Value)
      → chat_payload crates lru sessions st model payload ≡ some out
      → get "model" out ≡ some (string model)
  unfolding chat_payload
  get-chat_payload payload out h =
      elim (Option-cases (index_put "model" (string model) (strip_reasoning_content payload))) [
        | inl e ↦ absurd (let q : none ≡ some out = rw (chat_payload, e) at h in ground arith)
        | inr (named, e) ↦
            let tools = over_tools crates.to_string named in
            let kept : get "model" tools ≡ some (string model) =
              get-over_tools crates.to_string named
              ∙ get-index_put_self "model" (string model) (strip_reasoning_content payload) named
                  refl e in
            let images =
              if needs_vision_handoff st.catalog model st.config
              then tools
              else limit_images_in_messages st.config.max_images tools in
            let still : get "model" images ≡ some (string model) =
              elim (Bool-cases (needs_vision_handoff st.catalog model st.config)) [
                | inl f ↦ rw f kept
                | inr f ↦ rw f (get-limit_images_in_messages st.config.max_images tools ∙ kept)
              ] in
            elim (Option-cases (apply_auto_think st.catalog model images)) [
              | inl f ↦
                  absurd (let q : none ≡ some out = rw (chat_payload, e, f) at h in ground arith)
              | inr (thinking, f) ↦
                  let q : some (normalize_thinking_payload thinking) ≡ some out =
                    rw (chat_payload, e, f) at h in
                  let same : normalize_thinking_payload thinking ≡ out = ground arith in
                  ap (get "model") (sym same)
                  ∙ get-normalize_thinking_payload thinking
                  ∙ get-apply_auto_think st.catalog model images thinking f
                  ∙ still
            ]
      ]
