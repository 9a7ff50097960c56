-- ===== src/ErrorLog/Examples.antt =====
-- The redaction at concrete inputs: tests, and its theorem applied.
use mybro.ErrorLog.{redact_headers, redact_value_in_place, redact_body_json, cut_content}
use mybro.ErrorLog.Redacted.{IsClean, redact_body_json-IsClean}
use mybro.Json.{Value, string, array, object, cons, nil, field, end, insert, as_str}
use mybro.Prelude.{
  ◌≡◌, refl, true, false, byte_len, strip_prefix, starts_with, contains, none, some, [], ◌∷◌,
}

abbrev body : Value
body = object (
    field "model" (string "coder") (
      field "api_key" (string "sk-1") (
        field "messages"
          (array
            (cons (object (field "content" (string "hello") (field "token" (string "t") end))) nil))
          end)))

shown :
    redact_body_json (λ s. s) body
    ≡ some (
        object (
          field "model" (string "coder") (
            field "api_key" (string "[REDACTED]") (
              field "messages"
                (array (
                  cons
                    (object
                      (field "content" (string "hello") (field "token" (string "[REDACTED]") end)))
                    nil))
                end))))
unfolding redact_body_json as_str byte_len
shown = refl

-- A content that is no text keeps what is inside it, keys and all.
unredacted :
    let secret = object (field "token" (string "t") end) in
    redact_value_in_place (λ s. s) true (object (field "content" secret end))
    ≡ some (object (field "content" secret end))
unfolding redact_value_in_place as_str
unredacted = refl

headers :
    redact_headers
      (λ s. s)
      (("accept", some "*/*") ∷ ("x-goog-api-key", some "k") ∷ ("x-blob", none) ∷ [])
    ≡ object (
        field "accept"
          (string "*/*")
          (field "x-goog-api-key" (string "[REDACTED]") (field "x-blob" (string "[binary]") end)))
unfolding redact_headers contains starts_with strip_prefix insert
headers = refl

redact_body_json-IsClean_example :
    (w : Value) × (redact_body_json (λ s. s) body ≡ some w) × IsClean (λ s. s) false w
unfolding cut_content as_str byte_len
redact_body_json-IsClean_example =
    redact_body_json-IsClean (λ s. s) body
      (tt, (tt, ((((string "hello", refl), (tt, tt)), tt), tt)))
