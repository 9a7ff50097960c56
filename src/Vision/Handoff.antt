-- ===== src/Vision/Handoff.antt =====
-- src/vision.rs: the analysis of the images of a request, and their replacement. `join_all` runs the analyses
-- side by side: each is a look at the cache and, after a miss, an answer, in any order.
use mybro.Catalog.{Catalog, needs_vision_handoff}
use mybro.Config.{Config}
use mybro.HandoffCache
use mybro.HandoffCache.{Digest, CacheEntry}
use mybro.Json.{Value, string, object, field, end}
use mybro.Lru.{Lru}
use mybro.Payload.Images.{write_at}
use mybro.Prelude.{
  ℕ, zero, suc, ◌+◌, ◌/◌, ◌%◌, String, str_append, Bool, true, false, not, Option, none, some, List,
  [], ◌∷◌, map, length, get_elem?, set, ltb, ◌==◌, if◌then◌else◌,
}
use mybro.Vision.{ImageRef, collect_image_parts, extract_chat_content}

-- What the request for an analysis comes to: no response or no body, with the error's text; a status that
-- is no success; or a body.
pub data Heard : Type 0 where
  broken : String → Heard
  refused : ℕ → Heard
  heard : List ℕ → Heard

-- `serde_json::from_slice`, with the error's text.
pub data Parsed : Type 0 where
  parse_error : String → Parsed
  parsed : Value → Parsed

pub data Progress : Type 0 where
  waiting asked : Progress
  described : String → Progress

-- `looks now i` and `hears now i`: the image with index i looks into the cache, or gets its answer.
pub data Turn : Type 0 where
  looks hears : ℕ → ℕ → Turn

abbrev pub digit_text : ℕ → String
digit_text d =
    elim (get_elem? {A = String} ("0" ∷ "1" ∷ "2" ∷ "3" ∷ "4" ∷ "5" ∷ "6" ∷ "7" ∷ "8" ∷ "9" ∷ [])
      d) [ none ↦ "" | some s ↦ s ]

-- A number in decimal; as fuel, the number itself is more than its digits.
unfoldable pub decimal_from : ℕ → ℕ → String
decimal_from zero n = digit_text (n % 10)
decimal_from (suc fuel) n =
    let front = decimal_from fuel (n / 10) in
    if ltb n 10 then digit_text n else str_append front (digit_text (n % 10))

unfoldable pub decimal : ℕ → String
decimal n = decimal_from n n

-- The description number i + 1 of `count`, as the model reads it.
unfoldable pub label : ℕ → ℕ → String → String
unfolding decimal
label count i desc =
    if ltb 1 count
    then str_append "[Image " (
        str_append (decimal (i + 1)) (
          str_append
            " content — analyzed by vision module, shown as text because the active model cannot see images:]\n"
            desc))
    else str_append
        "[Image content — analyzed by vision module, shown as text because the active model cannot see images:]\n"
        desc

abbrev pub text_part : String → Value
text_part t = object (field "type" (string "text") (field "text" (string t) end))

unfoldable pub replace_parts : ℕ → ℕ → List ImageRef → List String → Value → Value
unfolding write_at label
replace_parts count i [] descs payload = payload
replace_parts count i (img ∷ imgs) [] payload = payload
replace_parts count i (img ∷ imgs) (desc ∷ descs) payload =
    replace_parts count (i + 1) imgs descs
      (write_at img.path (text_part (label count i desc)) payload)

-- What `join_all` gives; `none` while some analysis is not over.
unfoldable pub finished : List Progress → Option (List String)
finished [] = some []
finished (waiting ∷ ps) = none
finished (asked ∷ ps) = none
finished (described s ∷ ps) = elim (finished ps) [ none ↦ none | some descs ↦ some (s ∷ descs) ]

module _ (lru : Lru Digest CacheEntry) (sha256 : String → Digest) (from_slice : List ℕ → Parsed)
    (status_text : ℕ → String) where
  -- The description, and whether it is stored.
  unfoldable pub conclude : Heard → String × Bool
  unfolding extract_chat_content
  conclude (broken e) = (str_append "[Image analysis failed: " (str_append e "]"), false)
  conclude (refused status) =
      (str_append "[Image analysis failed: HTTP " (str_append (status_text status) "]"), false)
  conclude (heard body) = elim (from_slice body) [
    | parse_error e ↦ (str_append "[Image analysis failed: parse error: " (str_append e "]"), false)
    | parsed v ↦ (extract_chat_content v, true)
  ]

  -- The analyses with the cache that they share, which is there where `cached` is set.
  pub record Analyses : Type 0 where
    pub progress : List Progress
    pub cache : HandoffCache.State lru

  unfoldable pub look : Bool → ℕ → ℕ → ImageRef → Analyses → Analyses
  look cached now i img a =
      if cached
      then (let r = HandoffCache.get lru now (sha256 img.data_uri) a.cache in
          elim r.0 [
            | none ↦ record { progress = set a.progress i asked; cache = r.1 }
            | some desc ↦ record { progress = set a.progress i (described desc); cache = r.1 }
          ])
      else record a { progress = set a.progress i asked }

  unfoldable pub hear : Bool → ℕ → ℕ → ImageRef → Heard → Analyses → Analyses
  unfolding conclude
  hear cached now i img answer a =
      let r = conclude answer in
      record {
        progress = set a.progress i (described r.0);
        cache =
            if cached
            then if r.1 then HandoffCache.set lru now (sha256 img.data_uri) r.0 a.cache else a.cache
            else a.cache;
      }

  -- A turn of an analysis that is not at that point changes nothing. The upstream's answer to an image
  -- is a function of its index.
  unfoldable pub take_turn : Bool → List ImageRef → (ℕ → Heard) → Turn → Analyses → Analyses
  take_turn cached imgs answer (looks now i) a = elim (get_elem? imgs i) [
    | none ↦ a
    | some img ↦ elim (get_elem? a.progress i) [
      | none ↦ a
      | some p ↦ elim p [ waiting ↦ look cached now i img a | asked ↦ a | described s ↦ a ]
    ]
  ]
  take_turn cached imgs answer (hears now i) a = elim (get_elem? imgs i) [
    | none ↦ a
    | some img ↦ elim (get_elem? a.progress i) [
      | none ↦ a
      | some p ↦ elim p [
        | waiting ↦ a
        | asked ↦ hear cached now i img (answer i) a
        | described s ↦ a
      ]
    ]
  ]

  unfoldable pub take_turns : Bool → List ImageRef → (ℕ → Heard) → List Turn → Analyses → Analyses
  take_turns cached imgs answer [] a = a
  take_turns cached imgs answer (t ∷ ts) a =
      take_turns cached imgs answer ts (take_turn cached imgs answer t a)

  -- The payload, the number of images, and the cache; `none` while some analysis is not over.
  unfoldable pub perform_vision_handoff :
      Option Catalog
      → String
      → Config
      → Bool
      → (ℕ → Heard)
      → List Turn
      → HandoffCache.State lru
      → Value
      → Option (Value × ℕ × HandoffCache.State lru)
  unfolding collect_image_parts needs_vision_handoff
  perform_vision_handoff catalog resolved_model cfg cached answer turns cache payload =
      let imgs = collect_image_parts payload in
      let count = length imgs in
      let start : Analyses = record { progress = map (λ img. waiting) imgs; cache = cache } in
      let over = take_turns cached imgs answer turns start in
      if not (needs_vision_handoff catalog resolved_model cfg)
      then some (payload, 0, cache)
      else if count == 0
      then some (payload, 0, cache)
      else elim (finished over.progress) [
        | none ↦ none
        | some descs ↦ some (replace_parts count 0 imgs descs payload, count, over.cache)
      ]
