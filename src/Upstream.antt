-- ===== src/Upstream.antt =====
-- src/upstream.rs: the requests that are sent to the upstream. Sending them is reqwest's; a Duration is its
-- nanoseconds.
pub mod Urls
mod Examples
use Prim.Native.Char.{code}
use mybro.Prelude.{
  ℕ, ◌*◌, String, str_append, is_empty, Bool, true, false, ◌&&◌, ◌||◌, Option, none, some, List, [],
  ◌∷◌, ◌++◌, ◌==◌, if◌then◌else◌,
}

pub data Method : Type 0 where
  get post : Method

-- What is given to reqwest: headers are added in this order, `none` for an empty body.
pub record Request : Type 0 where
  pub method : Method
  pub url : String
  pub timeout : ℕ
  pub headers : List (String × String)
  pub body : Option (List ℕ)

pub record Upstream : Type 0 where
  pub base : String
  pub timeout : ℕ

abbrev pub umans_api_base : String
umans_api_base = "https://api.code.umans.ai/v1"

unfoldable pub new : String → ℕ → Upstream
new base_url timeout = record {
  base = if is_empty base_url then umans_api_base else base_url;
  timeout = timeout;
}

-- `trim_end_matches('/')`.
unfoldable pub trim_slashes : String → String
trim_slashes String.[] = String.[]
trim_slashes (String.◌∷◌ c s) =
    let rest = trim_slashes s in
    if is_empty rest && code c == 47 then String.[] else String.◌∷◌ c rest

unfoldable pub build_url : Upstream → String → String
unfolding trim_slashes
build_url u path = str_append (trim_slashes u.base) path

abbrev pub ten_seconds : ℕ
ten_seconds = 10 * 1_000_000_000

abbrev pub or_timeout : Option ℕ → ℕ → ℕ
or_timeout none t = t
or_timeout (some t) u = t

-- `is_header` tells the texts that `HeaderValue::from_str` takes.
module _ (is_header : String → Bool) where
  -- `Bearer` alone, where the key cannot stand in a header.
  abbrev pub bearer : String → String
  bearer key = let value = str_append "Bearer " key in if is_header value then value else "Bearer "

  unfoldable pub do_request :
      Method
      → String
      → String
      → List (String × String)
      → Option (List ℕ)
      → Option ℕ
      → Upstream
      → Request
  do_request method url key headers body timeout_override u = record {
    method = method;
    url = url;
    timeout = or_timeout timeout_override u.timeout;
    headers = ("authorization", bearer key) ∷ headers;
    body = body;
  }

  -- The headers of both calls for an answer.
  unfoldable pub call_headers : Bool → String → List (String × String)
  call_headers stream websearch_provider =
      ("content-type", "application/json")
      ∷ ("accept", if stream then "text/event-stream" else "application/json")
      ∷ (if is_empty websearch_provider
          then []
          else if is_header websearch_provider
          then ("x-umans-websearch-provider", websearch_provider) ∷ []
          else [])

  unfoldable pub chat_completions : String → List ℕ → Bool → String → Upstream → Request
  unfolding build_url do_request call_headers
  chat_completions key body stream websearch_provider u =
      do_request post (build_url u "/chat/completions") key (call_headers stream websearch_provider)
        (some body) none u

  unfoldable pub messages : String → List ℕ → Bool → String → Upstream → Request
  unfolding build_url do_request call_headers
  messages key body stream websearch_provider u =
      do_request post (build_url u "/messages") key (call_headers stream websearch_provider)
        (some body) none u

  abbrev pub short_get : String → String → Upstream → Request
  short_get path key u = do_request get (build_url u path) key [] none (some ten_seconds) u

  unfoldable pub get_user_info : String → Upstream → Request
  unfolding build_url do_request
  get_user_info key u = short_get "/models/info" key u

  unfoldable pub get_usage : String → Upstream → Request
  unfolding build_url do_request
  get_usage key u = short_get "/usage" key u

  unfoldable pub get_usage_history : String → String → Upstream → Request
  unfolding build_url do_request
  get_usage_history key query u =
      short_get (if is_empty query then "/usage/history" else str_append "/usage/history?" query)
        key u

  unfoldable pub get_models_pricing : String → Upstream → Request
  unfolding build_url do_request
  get_models_pricing key u = short_get "/models" key u

-- What reqwest tells of its error.
pub record UpstreamError : Type 0 where
  pub is_timeout : Bool
  pub is_connect : Bool

unfoldable pub as_status : UpstreamError → ℕ
as_status e = if e.is_timeout || e.is_connect then 502 else 500
