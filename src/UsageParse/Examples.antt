-- ===== src/UsageParse/Examples.antt =====
-- Usage parsing at concrete inputs: the source's own tests, and the theorems applied.
use mathlib.Core.List.Perm
use mybro.Json.{Value, number, object, pos_int, end, field, get, lookup, as_u64}
use mybro.Prelude.{
  ℕ, ◌≡◌, refl, Option, none, some, List, [], ◌∷◌, codes, codes_eq, decode, trim_codes, strip_codes,
  if◌then◌else◌,
}
use mybro.UsageParse.{
  Usage, no_usage, merge, u64_field, from_openai_usage, from_anthropic_usage,
  extract_usage_from_value, split_line, new_accumulator, payload_of, process_line, drain, ingest,
  finish,
}
use mybro.UsageParse.Lines.{scan, process_all}
use mybro.UsageParse.Chunks.{concat, lines, ingest_all, finish-ingest_all}
use mybro.UsageParse.Merge.{sample, process_all-perm}

abbrev num : ℕ → Value
num n = number (pos_int n)

-- `message_start`, as in the source's test of the Anthropic stream.
abbrev start_usage : Value
start_usage = object (
    field "input_tokens" (num 100) (
      field "output_tokens" (num 1) (
        field "cache_read_input_tokens" (num 40)
          (field "cache_creation_input_tokens" (num 10) end))))

abbrev start_event : Value
start_event = object (field "message" (object (field "usage" start_usage end)) end)

abbrev delta_event : Value
delta_event = object (field "usage" (object (field "output_tokens" (num 250) end)) end)

-- A parser that knows the two events by a name.
unfoldable parser : List ℕ → Option Value
unfolding codes_eq
parser p =
    if codes_eq p (codes "start")
    then some start_event
    else if codes_eq p (codes "delta")
    then some delta_event
    else none

program : Unit {0}
unfolding parser extract_usage_from_value from_openai_usage from_anthropic_usage u64_field get
    lookup as_u64 merge split_line payload_of process_line drain ingest finish scan process_all
    concat lines ingest_all sample decode trim_codes strip_codes codes_eq
program = tt

abbrev chunks : List (List ℕ)
chunks =
    codes "event: message_start\ndata: sta"
    ∷ codes "rt\n\nda"
    ∷ codes "ta: delta\ndata: [DONE]"
    ∷ []

abbrev merged : Usage
merged = record { tokens_in = 150; tokens_out = 250; cached = 40; creation = 10 }

-- `anthropic_streaming_merges_start_and_delta`, cut at odd places and with no newline at the end.
streaming : (finish parser parser (ingest_all parser parser chunks new_accumulator)).1 ≡ merged
unfolding program
streaming = refl

finish-ingest_all_example :
    (finish parser parser (ingest_all parser parser chunks new_accumulator)).1
    ≡ process_all parser parser (lines (concat chunks)) no_usage
finish-ingest_all_example = finish-ingest_all parser parser chunks

abbrev start_line : List ℕ
start_line = codes "data: start\n"

abbrev delta_line : List ℕ
delta_line = codes "data: delta\n"

process_all-perm_example :
    process_all parser parser (start_line ∷ delta_line ∷ []) no_usage
    ≡ process_all parser parser (delta_line ∷ start_line ∷ []) no_usage
process_all-perm_example =
    process_all-perm parser parser (start_line ∷ delta_line ∷ []) (delta_line ∷ start_line ∷ [])
      no_usage (Perm.swap delta_line start_line [])
