-- ===== src/UsageParse.antt =====
-- src/usage_parse.rs: token usage from upstream responses, whole or as server-sent events.
-- Bytes and code points are numbers. The JSON parser of serde_json is a parameter.
pub mod Lines
pub mod Chunks
pub mod Merge
mod Examples
use mybro.Json.{Value, get, get_then, as_u64}
use mybro.Prelude.{
  ℕ, zero, suc, ◌+◌, ◌%◌, ◌^◌, max, Bool, true, false, ◌||◌, Option, none, some, List, [], ◌∷◌,
  ◌++◌, length, codes, from_utf8, decode, trim_codes, strip_codes, codes_eq, ltb, ◌==◌,
  if◌then◌else◌,
}

pub record Usage : Type 0 where
  pub tokens_in : ℕ
  pub tokens_out : ℕ
  pub cached : ℕ
  pub creation : ℕ

abbrev pub no_usage : Usage
no_usage = record { tokens_in = 0; tokens_out = 0; cached = 0; creation = 0 }

unfoldable pub any : Usage → Bool
any u = ltb 0 u.tokens_in || ltb 0 u.tokens_out || ltb 0 u.cached || ltb 0 u.creation

unfoldable pub merge : Usage → Usage → Usage
merge u other = record {
  tokens_in = max u.tokens_in other.tokens_in;
  tokens_out = max u.tokens_out other.tokens_out;
  cached = max u.cached other.cached;
  creation = max u.creation other.creation;
}

-- `unwrap_or(0)`.
abbrev pub or_zero : Option ℕ → ℕ
or_zero none = 0
or_zero (some n) = n

unfoldable pub u64_field : Value → Prim.Native.String.String → ℕ
u64_field u key = or_zero (get_then key as_u64 u)

unfoldable pub from_openai_usage : Value → Usage
from_openai_usage u =
    let details = get "prompt_tokens_details" u in
    record {
      tokens_in = u64_field u "prompt_tokens";
      tokens_out = u64_field u "completion_tokens";
      cached = elim details [ none ↦ 0 | some d ↦ u64_field d "cached_tokens" ];
      creation = elim details [ none ↦ 0 | some d ↦ u64_field d "cache_creation_tokens" ];
    }

-- The sum is one of 64-bit numbers, which wraps in a release build.
unfoldable pub from_anthropic_usage : Value → Usage
from_anthropic_usage u =
    let cached = u64_field u "cache_read_input_tokens" in
    let creation = u64_field u "cache_creation_input_tokens" in
    record {
      tokens_in = (u64_field u "input_tokens" + cached + creation) % 2 ^ 64;
      tokens_out = u64_field u "output_tokens";
      cached = cached;
      creation = creation;
    }

abbrev pub is_some {ℓ} : {A : Type ℓ} → Option A → Bool
is_some none = false
is_some (some a) = true

unfoldable pub extract_usage_from_value : Value → Usage
extract_usage_from_value v = elim (get_then "message" (get "usage") v) [
  | some u ↦ from_anthropic_usage u
  | none ↦ elim (get "usage" v) [
    | none ↦ no_usage
    | some u ↦
        if is_some (get "prompt_tokens" u) || is_some (get "completion_tokens" u)
        then from_openai_usage u
        else from_anthropic_usage u
  ]
]

abbrev pub newline : ℕ
newline = b'\n'

-- The first line with its newline, and what follows it.
unfoldable pub split_line : List ℕ → Option (List ℕ × List ℕ)
split_line [] = none
split_line (b ∷ bs) =
    let rest = split_line bs in
    if b == newline
    then some (b ∷ [], bs)
    else elim rest [ none ↦ none | some (line, after) ↦ some (b ∷ line, after) ]

-- The accumulator: `line_buf` and `usage`.
pub record Accumulator : Type 0 where
  pub line_buf : List ℕ
  pub usage : Usage

abbrev pub new_accumulator : Accumulator
new_accumulator = record { line_buf = []; usage = no_usage }

-- `serde_json::from_str` and `from_slice`.
module _ (from_str from_slice : List ℕ → Option Value) where
  unfoldable pub extract_usage : List ℕ → Usage
  extract_usage body = elim (from_slice body) [
    | none ↦ no_usage
    | some v ↦ extract_usage_from_value v
  ]

  -- The payload of a line, if it is a `data:` line with one.
  unfoldable pub payload_of : List ℕ → Option (List ℕ)
  unfolding decode trim_codes strip_codes codes_eq
  payload_of line = elim (from_utf8 line) [
    | none ↦ none
    | some s ↦ elim (strip_codes (codes "data:") (trim_codes s)) [
      | none ↦ none
      | some p ↦ elim (trim_codes p) [
        | [] ↦ none
        | c ∷ cs ↦ if codes_eq (c ∷ cs) (codes "[DONE]") then none else some (c ∷ cs)
      ]
    ]
  ]

  unfoldable pub process_line : List ℕ → Usage → Usage
  process_line line u = elim (payload_of line) [
    | none ↦ u
    | some payload ↦ elim (from_str payload) [
      | none ↦ u
      | some v ↦ merge u (extract_usage_from_value v)
    ]
  ]

  -- `while let Some(nl) = line_buf.iter().position(..)`: each round takes a line off the buffer.
  unfoldable pub drain : ℕ → Accumulator → Accumulator
  drain zero a = a
  drain (suc fuel) a = elim (split_line a.line_buf) [
    | none ↦ a
    | some (line, rest) ↦ drain fuel (record { line_buf = rest; usage = process_line line a.usage })
  ]

  -- Every round takes a byte at least, so as many rounds as there are bytes are enough.
  unfoldable pub ingest : List ℕ → Accumulator → Accumulator
  ingest chunk a =
      drain (length (a.line_buf ++ chunk)) (record a { line_buf = a.line_buf ++ chunk })

  unfoldable pub finish : Accumulator → Accumulator × Usage
  finish a = elim a.line_buf [
    | [] ↦ (a, a.usage)
    | b ∷ bs ↦ let u = process_line (b ∷ bs) a.usage in (record { line_buf = []; usage = u }, u)
  ]
