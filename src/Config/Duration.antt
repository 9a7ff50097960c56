-- ===== src/Config/Duration.antt =====
-- src/config.rs, `parse_duration`, with the parsing of numbers in the standard library. A Duration is
-- its nanoseconds.
use Prim.Native.Char.{Char, code}
use mybro.Prelude.{
  ℕ, ◌+◌, ◌-◌, ◌*◌, ◌%◌, ◌^◌, String, Bool, not, ◌&&◌, Option, none, some, is_empty, trim, ltb, leb,
  ◌==◌, if◌then◌else◌,
}

abbrev pub is_digit : ℕ → Bool
is_digit c = leb 48 c && leb c 57

-- The number that digits continue; `none` at anything else.
unfoldable pub digits : ℕ → String → Option ℕ
digits acc String.[] = some acc
digits acc (String.◌∷◌ c s) =
    let rest = digits (acc * 10 + (code c - 48)) s in if is_digit (code c) then rest else none

abbrev pub below : ℕ → Option ℕ → Option ℕ
below bound none = none
below bound (some n) = if ltb n bound then some n else none

-- `str::parse` for an unsigned type: digits after at most one plus sign, below the bound.
unfoldable pub parse_below : ℕ → String → Option ℕ
unfolding digits
parse_below bound String.[] = none
parse_below bound (String.◌∷◌ c s) =
    if code c == 43 && not (is_empty s)
    then below bound (digits 0 s)
    else below bound (digits 0 (String.◌∷◌ c s))

-- What stands before the last character, and that character.
unfoldable pub split_last : Char → String → String × Char
split_last c String.[] = (String.[], c)
split_last c (String.◌∷◌ d s) = (String.◌∷◌ c (split_last d s).0, (split_last d s).1)

-- `mult` for the last byte.
abbrev pub multiplier : ℕ → Option ℕ
multiplier last =
    if last == 104
    then some 3600
    else if last == 109
    then some 60
    else if last == 115
    then some 1
    else none

-- `Duration::from_secs(n * mult)`; the product wraps.
abbrev pub seconds : ℕ → Option ℕ → ℕ
seconds mult none = 0
seconds mult (some n) = ((n * mult) % 2 ^ 64) * 1_000_000_000

abbrev pub millis : Option ℕ → ℕ
millis none = 0
millis (some ms) = ms * 1_000_000

unfoldable pub parse_trimmed : String → ℕ
unfolding parse_below split_last
parse_trimmed String.[] = 0
parse_trimmed (String.◌∷◌ c s) = elim (multiplier (code (split_last c s).1)) [
  | some mult ↦ seconds mult (parse_below (2 ^ 64) (split_last c s).0)
  | none ↦ millis (parse_below (2 ^ 64) (String.◌∷◌ c s))
]

unfoldable pub parse_duration : String → ℕ
parse_duration s = parse_trimmed (trim s)
