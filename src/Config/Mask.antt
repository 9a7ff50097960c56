-- ===== src/Config/Mask.antt =====
-- src/config.rs, `mask_token`: what the dashboard shows of a key.
use mybro.Prelude.{
  ◌-◌, String, str_append, Option, none, some, is_empty, byte_len, slice_to, slice_from, leb,
  if◌then◌else◌,
}

-- `none` is the panic of a slice that falls inside a character.
unfoldable pub mask_token : String → Option String
unfolding byte_len slice_to slice_from
mask_token token =
    if leb (byte_len token) 14
    then some (if is_empty token then "" else "***")
    else elim (slice_to 10 token) [
      | none ↦ none
      | some front ↦ elim (slice_from (byte_len token - 4) token) [
        | none ↦ none
        | some back ↦ some (str_append front (str_append "..." back))
      ]
    ]
