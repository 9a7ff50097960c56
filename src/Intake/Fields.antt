-- ===== src/Intake/Fields.antt =====
-- Fields that the steps of the pipelines leave alone.
use mybro.Catalog.{Catalog, flag_at}
use mybro.Intake.{over_tools, or_new, with_usage, ask_usage}
use mybro.Json.{
  Value, null, bool, number, string, array, object, field, end, get, get_then, as_object, lookup,
  insert, put_back,
}
use mybro.Json.Objects.{lookup-insert_self, lookup-insert_ne}
use mybro.Payload.{rename_budget, normalize_thinking_payload}
use mybro.Payload.Images.{
  Step, key, index, write_at, ImagePos, in_system, in_message, path_of, positions, sort_positions,
  shared_before, replace_each, limit_images_in_messages,
}
use mybro.Payload.Prompt.{index_put, reasoning_of, apply_auto_think}
use mybro.Prelude.{
  ℕ, ◌-◌, ◌≡◌, refl, sym, ap, ◌∙◌, inl, inr, String, str_eq, true, false, not, ◌&&◌, Option, some,
  List, [], ◌∷◌, length, take, leb, ◌==◌, Bool-cases, Option-cases, arith,
}
use mybro.SchemaNorm.{normalize_tool_schemas}

-- Writes to other fields leave a field alone.
pub get-put_back_ne :
    (k j : String) (w v : Value) → str_eq k j ≡ false → get j (put_back k w v) ≡ get j v
unfolding get put_back
get-put_back_ne k j w null ne = refl
get-put_back_ne k j w (bool b) ne = refl
get-put_back_ne k j w (number n) ne = refl
get-put_back_ne k j w (string s) ne = refl
get-put_back_ne k j w (array vs) ne = refl
get-put_back_ne k j w (object fs) ne = lookup-insert_ne k j w fs ne

pub get-write_at_ne :
    (k j : String) (path : List Step) (new v : Value)
    → str_eq k j ≡ false
    → get j (write_at (key k ∷ path) new v) ≡ get j v
unfolding get write_at
get-write_at_ne k j path new null ne = refl
get-write_at_ne k j path new (bool b) ne = refl
get-write_at_ne k j path new (number n) ne = refl
get-write_at_ne k j path new (string s) ne = refl
get-write_at_ne k j path new (array vs) ne = refl
get-write_at_ne k j path new (object fs) ne = elim (Option-cases (lookup k fs)) [
  | inl e ↦ rw (write_at, e) refl
  | inr (w, e) ↦ rw (write_at, e) (lookup-insert_ne k j (write_at path new w) fs ne)
]

pub get-ask_usage : (v : Value) → get "model" (ask_usage v) ≡ get "model" v
unfolding get ask_usage
get-ask_usage null = refl
get-ask_usage (bool b) = refl
get-ask_usage (number n) = refl
get-ask_usage (string s) = refl
get-ask_usage (array vs) = refl
get-ask_usage (object fs) =
    lookup-insert_ne "stream_options" "model" (with_usage (or_new (lookup "stream_options" fs))) fs
      refl

pub get-index_put_ne :
    (k j : String) (w v out : Value)
    → str_eq k j ≡ false
    → index_put k w v ≡ some out
    → get j out ≡ get j v
unfolding get index_put lookup
get-index_put_ne k j w null out ne h =
    let q : object (field k w end) ≡ out = ground arith in ap (get j) (sym q) ∙ rw (lookup, ne) refl
get-index_put_ne k j w (bool b) out ne h = absurd (ground arith)
get-index_put_ne k j w (number n) out ne h = absurd (ground arith)
get-index_put_ne k j w (string s) out ne h = absurd (ground arith)
get-index_put_ne k j w (array vs) out ne h = absurd (ground arith)
get-index_put_ne k j w (object fs) out ne h =
    let q : object (insert k w fs) ≡ out = ground arith in
    ap (get j) (sym q) ∙ lookup-insert_ne k j w fs ne

pub get-index_put_self :
    (k : String) (w v out : Value)
    → str_eq k k ≡ true
    → index_put k w v ≡ some out
    → get k out ≡ some w
unfolding get index_put lookup
get-index_put_self k w null out same h =
    let q : object (field k w end) ≡ out = ground arith in
    ap (get k) (sym q) ∙ rw (lookup, same) refl
get-index_put_self k w (bool b) out same h = absurd (ground arith)
get-index_put_self k w (number n) out same h = absurd (ground arith)
get-index_put_self k w (string s) out same h = absurd (ground arith)
get-index_put_self k w (array vs) out same h = absurd (ground arith)
get-index_put_self k w (object fs) out same h =
    let q : object (insert k w fs) ≡ out = ground arith in
    ap (get k) (sym q) ∙ lookup-insert_self k w fs

-- The steps of the pipeline.
pub get-over_tools :
    (to_string : Value → String) (v : Value) → get "model" (over_tools to_string v) ≡ get "model" v
get-over_tools to_string v = elim (Option-cases (get "tools" v)) [
  | inl e ↦ rw (over_tools, e) refl
  | inr (t, e) ↦
      rw (over_tools, e)
        (get-put_back_ne "tools" "model" (normalize_tool_schemas to_string t) v refl)
]

get-replace_each :
    (ps : List ImagePos) (v : Value) → get "model" (replace_each ps v) ≡ get "model" v
unfolding replace_each path_of
get-replace_each [] v = refl
get-replace_each (in_system i ∷ ps) v =
    get-replace_each ps (write_at (path_of (in_system i)) shared_before v)
    ∙ get-write_at_ne "system" "model" (index i ∷ []) shared_before v refl
get-replace_each (in_message mi ci ∷ ps) v =
    get-replace_each ps (write_at (path_of (in_message mi ci)) shared_before v)
    ∙ get-write_at_ne "messages" "model" (index mi ∷ key "content" ∷ index ci ∷ []) shared_before v
        refl

pub get-limit_images_in_messages :
    (n : ℕ) (v : Value) → get "model" (limit_images_in_messages n v) ≡ get "model" v
unfolding limit_images_in_messages
get-limit_images_in_messages n v =
    let over = take (length (positions v) - n) (sort_positions (positions v)) in
    elim (Bool-cases (n == 0)) [
      | inl e ↦ rw (limit_images_in_messages, e) refl
      | inr e ↦ elim (Bool-cases (leb (length (positions v)) n)) [
        | inl f ↦ rw (limit_images_in_messages, e, f) refl
        | inr f ↦ rw (limit_images_in_messages, e, f) (get-replace_each over v)
      ]
    ]

pub get-normalize_thinking_payload :
    (v : Value) → get "model" (normalize_thinking_payload v) ≡ get "model" v
unfolding normalize_thinking_payload
get-normalize_thinking_payload v = elim (Option-cases (get_then "thinking" as_object v)) [
  | inl e ↦ rw (normalize_thinking_payload, e) refl
  | inr (t, e) ↦
      rw (normalize_thinking_payload, e)
        (get-put_back_ne "thinking" "model" (object (rename_budget t)) v refl)
]

pub get-apply_auto_think :
    (catalog : Option Catalog) (model : String) (v out : Value)
    → apply_auto_think catalog model v ≡ some out
    → get "model" out ≡ get "model" v
unfolding apply_auto_think
get-apply_auto_think catalog model v out h = elim (Option-cases (reasoning_of catalog model)) [
  | inl e ↦
      let q : some v ≡ some out = rw (apply_auto_think, e) at h in
      let r : v ≡ out = ground arith in ap (get "model") (sym r)
  | inr (r, e) ↦ elim (Bool-cases (flag_at "supported" r && not (flag_at "can_disable" r))) [
    | inl f ↦
        let q = rw (apply_auto_think, e, f) at h in
        get-index_put_ne "thinking" "model" (object (field "type" (string "adaptive") end)) v out
          refl q
    | inr f ↦
        let q : some v ≡ some out = rw (apply_auto_think, e, f) at h in
        let s : v ≡ out = ground arith in ap (get "model") (sym s)
  ]
]
