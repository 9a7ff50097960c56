-- ===== src/Vision/Examples.antt =====
-- The handoff at a concrete request, over a cache of lists: tests, and the theorem applied.
use mybro.Catalog.{Catalog, needs_vision_handoff}
use mybro.Config.{Config, default_config}
use mybro.HandoffCache.{Digest, CacheEntry, State, new, get as get_entry, set as set_entry}
use mybro.Json.{
  Value, string, object, array, field, end, cons, nil, get, lookup, insert, as_str, as_array,
  to_list, from_list,
}
use mybro.Lru.{Lru}
use mybro.Lru.Lists.{list_lru, lookup as lookup_entry, delete, get as lru_get, put}
use mybro.Payload.Images.{write_at}
use mybro.Prelude.{
  ℕ, ◌≡◌, refl, String, true, false, Option, none, some, [], ◌∷◌, codes_eq, codes_eq_sound,
  codes_eq_self,
}
use mybro.Vision.{
  source_uri, extract_image_uri, image_refs, content_refs, message_refs, collect_image_parts,
  analysis_request, join_texts, first_item, extract_chat_content,
}
use mybro.Vision.Handoff.{
  Heard, heard, refused, parsed, asked, looks, hears, text_part, decimal_from, decimal, label,
  replace_parts, finished, conclude, Analyses, look, hear, take_turn, take_turns,
  perform_vision_handoff,
}

program : Unit {0}
unfolding source_uri extract_image_uri image_refs content_refs message_refs collect_image_parts
    analysis_request join_texts first_item extract_chat_content decimal_from decimal label
    replace_parts finished conclude look hear take_turn take_turns perform_vision_handoff write_at
    get lookup insert as_str as_array to_list from_list lookup_entry delete lru_get put codes_eq
    get_entry set_entry new needs_vision_handoff
program = tt

abbrev lists : Lru Digest CacheEntry
lists = list_lru codes_eq codes_eq_sound codes_eq_self 49

abbrev cache : State lists
cache = record { inner = []; cap = 50; ttl = 60_000; hits = 0; misses = 0; evictions = 0 }

abbrev image : String → Value
image url = object (
    field "type" (string "image_url")
      (field "image_url" (object (field "url" (string url) end)) end))

abbrev with_parts : Value → Value → Value
with_parts p q = object (
    field "messages" (array (cons (object (field "content" (array (cons p (cons q nil))) end)) nil))
      end)

abbrev reply : Value
reply = object (
    field "choices"
      (array
        (cons (object (field "message" (object (field "content" (string "a cat") end)) end)) nil))
      end)

abbrev models : Catalog
models = record {
  info =
      (
        "m",
        object (
            field "capabilities" (object (field "supports_vision" (string "via-handoff") end)) end),
      )
      ∷ [];
  display = [];
  ordered_ids = "m" ∷ [];
}

abbrev config : Config
config = record default_config { vision_handoff_enabled = true }

abbrev answers : ℕ → Heard
answers i = elim i [ ℕ.zero ↦ heard [] | ℕ.suc k ↦ refused 503 ]

abbrev result_of : Option (Value × ℕ × State lists) → Option Value
result_of none = none
result_of (some r) = some r.0

-- Both images look first, and the second is answered first.
replaced :
    result_of (
      perform_vision_handoff lists
        (λ s. [])
        (λ bs. parsed reply)
        (λ n. "503 Service Unavailable")
        (some models)
        "m"
        config
        false
        answers
        (looks 0 0 ∷ looks 0 1 ∷ hears 5 1 ∷ hears 9 0 ∷ [])
        cache
        (with_parts (image "a") (image "b")))
    ≡ some (
        with_parts
          (text_part
            "[Image 1 content — analyzed by vision module, shown as text because the active model cannot see images:]\na cat")
          (text_part
            "[Image 2 content — analyzed by vision module, shown as text because the active model cannot see images:]\n[Image analysis failed: HTTP 503 Service Unavailable]"))
unfolding extract_image_uri image_refs content_refs message_refs collect_image_parts join_texts
    first_item extract_chat_content decimal_from decimal label replace_parts finished conclude look
    hear take_turn take_turns perform_vision_handoff write_at get lookup insert as_str as_array
    to_list from_list needs_vision_handoff
replaced = refl

abbrev start : Analyses lists (λ s. []) (λ bs. parsed reply) (λ n. "")
start = record { progress = asked ∷ asked ∷ []; cache = cache }
