-- ===== src/Upstream/Urls.antt =====
-- What the requests have in common, whatever the base.
use Prim.Native.String.append
use mybro.Prelude.{
  ℕ, ◌≡◌, refl, sym, ap, ◌∙◌, String, str_append, is_empty, Bool, false, List, if◌then◌else◌, arith,
}
use mybro.Upstream.{
  umans_api_base, new, get_user_info, get_usage, get_usage_history, get_models_pricing,
  trim_slashes, build_url, do_request, chat_completions, messages,
}

-- One more slash at the end changes nothing.
trim_slashes-slash : (s : String) → trim_slashes (str_append s "/") ≡ trim_slashes s
unfolding trim_slashes
trim_slashes-slash String.[] = refl
trim_slashes-slash (String.◌∷◌ c s) =
    let e : str_append (String.◌∷◌ c s) "/" ≡ String.◌∷◌ c (str_append s "/") =
      λ i. append.cons c s "/" i in
    rw e (rw (trim_slashes, trim_slashes-slash s) refl)

build_url-slash :
    (base path : String) (timeout : ℕ)
    → is_empty base ≡ false
    → build_url (new (str_append base "/") timeout) path ≡ build_url (new base timeout) path
unfolding build_url new
build_url-slash String.[] path timeout h = absurd (ground arith)
build_url-slash (String.◌∷◌ c s) path timeout h =
    let e : str_append (String.◌∷◌ c s) "/" ≡ String.◌∷◌ c (str_append s "/") =
      λ i. append.cons c s "/" i in
    ap (λ t. str_append t path)
      (ap (λ b. trim_slashes (if is_empty b then umans_api_base else b)) e
        ∙ ap trim_slashes (sym e)
        ∙ trim_slashes-slash (String.◌∷◌ c s))

module _ (is_header : String → Bool) where
  -- The upstream's requests do not depend on whether the configured base ends in a slash: none of the six
  -- differs in its method, its address, its headers, its body or its timeout.
  pub requests-slash :
      (base key query websearch_provider : String) (body : List ℕ) (stream : Bool) (timeout : ℕ)
      → is_empty base ≡ false
      → let u = new base timeout in
        let v = new (str_append base "/") timeout in
        (chat_completions is_header key body stream websearch_provider v
          ≡ chat_completions is_header key body stream websearch_provider u)
        × (messages is_header key body stream websearch_provider v
            ≡ messages is_header key body stream websearch_provider u)
        × (get_user_info is_header key v ≡ get_user_info is_header key u)
        × (get_usage is_header key v ≡ get_usage is_header key u)
        × (get_usage_history is_header key query v ≡ get_usage_history is_header key query u)
        × (get_models_pricing is_header key v ≡ get_models_pricing is_header key u)
  unfolding new chat_completions messages get_user_info get_usage get_usage_history
      get_models_pricing do_request
  requests-slash base key query websearch_provider body stream timeout h =
      let same = λ (path : String). build_url-slash base path timeout h in
      (
        rw (same "/chat/completions"),
        rw (same "/messages"),
        rw (same "/models/info"),
        rw (same "/usage"),
        rw (same (if is_empty query then "/usage/history" else str_append "/usage/history?" query)),
        rw (same "/models"),
      )
