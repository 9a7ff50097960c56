-- ===== src/Vision.antt =====
-- src/vision.rs: images described by another model, for a model that takes none. SHA-256, the parser of
-- serde_json and the text of a status are parameters.
pub mod Handoff
pub mod Reuse
mod Examples
use mybro.Config.{Config}
use mybro.Json.{
  Value, null, bool, number, string, array, object, field, end, cons, nil, get_then, as_array,
  as_str,
}
use mybro.Payload.{field_is}
use mybro.Payload.Images.{Step, key, index}
use mybro.Prelude.{
  ℕ, ◌+◌, String, str_eq, str_append, is_empty, true, false, Option, none, some, List, [], ◌∷◌,
  ◌++◌, if◌then◌else◌,
}

pub record ImageRef : Type 0 where
  pub path : List Step
  pub data_uri : String

abbrev pub or_png : Option String → String
or_png none = "image/png"
or_png (some m) = m

-- `{"type": "base64", …}` or `{"type": "url", …}`.
unfoldable pub source_uri : Value → Option String
source_uri source = elim (get_then "type" as_str source) [
  | none ↦ none
  | some src_type ↦
      if str_eq src_type "base64"
      then elim (get_then "data" as_str source) [
        | none ↦ none
        | some data_text ↦
            let media_type = or_png (get_then "media_type" as_str source) in
            some (str_append "data:" (str_append media_type (str_append ";base64," data_text)))
      ]
      else if str_eq src_type "url"
      then get_then "url" as_str source
      else none
]

unfoldable pub extract_image_uri : Value → Option String
unfolding source_uri
extract_image_uri part = elim (get_then "type" as_str part) [
  | none ↦ none
  | some part_type ↦
      if str_eq part_type "image_url"
      then get_then "image_url" (get_then "url" as_str) part
      else if str_eq part_type "image"
      then get_then "source" source_uri part
      else none
]

abbrev pub ref_to : List Step → Value → List ImageRef
ref_to path part = elim (extract_image_uri part) [
  | none ↦ []
  | some uri ↦ record { path = path; data_uri = uri } ∷ []
]

abbrev pub items_at : String → Value → List Value
items_at k v = elim (get_then k as_array v) [ none ↦ [] | some vs ↦ vs ]

-- The images of a list, each with the path of the list and its index.
unfoldable pub image_refs : List Step → ℕ → List Value → List ImageRef
unfolding extract_image_uri
image_refs path i [] = []
image_refs path i (part ∷ parts) =
    ref_to (path ++ index i ∷ []) part ++ image_refs path (i + 1) parts

-- The images of a message's content, those inside the results of tools included.
unfoldable pub content_refs : List Step → ℕ → List Value → List ImageRef
unfolding image_refs
content_refs path i [] = []
content_refs path i (part ∷ parts) =
    let here = path ++ index i ∷ [] in
    ref_to here part
    ++ (if field_is "type" "tool_result" part
        then image_refs (here ++ key "content" ∷ []) 0 (items_at "content" part)
        else [])
    ++ content_refs path (i + 1) parts

unfoldable pub message_refs : ℕ → List Value → List ImageRef
unfolding content_refs
message_refs mi [] = []
message_refs mi (msg ∷ msgs) =
    content_refs (key "messages" ∷ index mi ∷ key "content" ∷ []) 0 (items_at "content" msg)
    ++ message_refs (mi + 1) msgs

unfoldable pub collect_image_parts : Value → List ImageRef
unfolding message_refs
collect_image_parts payload =
    image_refs (key "system" ∷ []) 0 (items_at "system" payload)
    ++ message_refs 0 (items_at "messages" payload)

abbrev pub default_handoff_prompt : String
default_handoff_prompt =
    "You are an image captioning module. Your output is fed verbatim into another model as the sole visual content of the image — it cannot see the image itself, only your text.\n\nProduce a factual, third-person description of the image contents. Do NOT use first person (\"I see...\"). Do NOT address the reader. Do NOT speculate about what the user wants.\n\nCover:\n- Type of image (screenshot, photograph, diagram, UI, log, etc.) and overall layout\n- All visible elements (objects, UI widgets, people, regions) and their spatial arrangement\n- Exact transcription of any visible text, code, or labels (use quotes)\n- Salient technical details (file paths, error messages, colors, dimensions, filenames)\n\nWrite as a single coherent description, not a bulleted list. Be thorough but concise."

-- The request to the model that describes.
unfoldable pub analysis_request : Config → String → Value
analysis_request cfg data_uri =
    let prompt =
      if is_empty cfg.vision_handoff_prompt
      then default_handoff_prompt
      else cfg.vision_handoff_prompt in
    let ask =
      object (field "type" (string "text") (field "text" (string "Describe this image.") end)) in
    let image = object (
      field "type" (string "image_url")
        (field "image_url" (object (field "url" (string data_uri) end)) end)) in
    let system = object (field "role" (string "system") (field "content" (string prompt) end)) in
    let user =
      object
        (field "role" (string "user") (field "content" (array (cons ask (cons image nil))) end)) in
    object (
      field "model" (string cfg.vision_handoff_model)
        (field "stream" (bool false) (field "messages" (array (cons system (cons user nil))) end)))

-- The texts of the parts, joined.
unfoldable pub join_texts : List Value → String
join_texts [] = ""
join_texts (p ∷ ps) = elim (get_then "text" as_str p) [
  | none ↦ join_texts ps
  | some t ↦ str_append t (join_texts ps)
]

-- `c.get(0)`.
unfoldable pub first_item : Value → Option Value
first_item v = elim (as_array v) [ none ↦ none | some vs ↦ elim vs [ [] ↦ none | w ∷ ws ↦ some w ] ]

unfoldable pub extract_chat_content : Value → String
unfolding first_item join_texts
extract_chat_content resp = elim (get_then "choices" first_item resp) [
  | none ↦ ""
  | some choice ↦ elim (get_then "message" (get_then "content" some) choice) [
    | none ↦ ""
    | some content ↦ elim (as_str content) [
      | some s ↦ s
      | none ↦ elim (as_array content) [ none ↦ "" | some ps ↦ join_texts ps ]
    ]
  ]
]
