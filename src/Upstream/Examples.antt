-- ===== src/Upstream/Examples.antt =====
-- The upstream's requests at concrete inputs: tests, and their theorem applied.
use mybro.Prelude.{◌≡◌, refl, true, some, [], ◌∷◌}
use mybro.Upstream.{post, new, build_url, chat_completions}

-- All slashes at the end go, and none within.
trimmed : build_url (new "http://mock//v1//" 5) "/usage" ≡ "http://mock//v1/usage"
unfolding build_url new
trimmed = refl

-- A provider that can stand in a header is sent as the third header of its own, after the key.
sent : chat_completions (λ s. true) "sk-1" (123 ∷ []) true "exa" (new "" 900) ≡ record {
  method = post;
  url = "https://api.code.umans.ai/v1/chat/completions";
  timeout = 900;
  headers =
      ("authorization", "Bearer sk-1")
      ∷ ("content-type", "application/json")
      ∷ ("accept", "text/event-stream")
      ∷ ("x-umans-websearch-provider", "exa")
      ∷ [];
  body = some (123 ∷ []);
}
unfolding chat_completions new
sent = refl
