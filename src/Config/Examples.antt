-- ===== src/Config/Examples.antt =====
-- The configuration at concrete inputs: tests, and the theorems applied.
use Prim.Native.String.{◌++◌}
use mybro.Config.Duration.{digits, parse_below, split_last, parse_trimmed, parse_duration}
use mybro.Config.Parsing.{parse_duration-digits}
use mybro.Prelude.{◌≡◌, refl, trim, trim_start, trim_end, is_whitespace}

program : Unit {0}
unfolding digits parse_below split_last parse_trimmed parse_duration trim trim_start trim_end
    is_whitespace
program = tt

-- Spaces around, a sign, a unit alone, and a product that wraps to nothing.
spaces : parse_duration " 15m " ≡ 900_000_000_000
unfolding digits parse_below split_last parse_trimmed parse_duration trim trim_start trim_end
    is_whitespace
spaces = refl

sign : parse_duration "+2h" ≡ 7_200_000_000_000
unfolding digits parse_below split_last parse_trimmed parse_duration trim trim_start trim_end
    is_whitespace
sign = refl

unit_alone : parse_duration "h" ≡ 0
unfolding digits parse_below split_last parse_trimmed parse_duration trim trim_start trim_end
    is_whitespace
unit_alone = refl

wrapped : parse_duration "1152921504606846976h" ≡ 0
unfolding digits parse_below split_last parse_trimmed parse_duration trim trim_start trim_end
    is_whitespace
wrapped = refl

parse_duration-digits_example :
    (parse_duration ("15" ++ "h") ≡ 54_000_000_000_000)
    × (parse_duration ("15" ++ "m") ≡ 900_000_000_000)
    × (parse_duration ("15" ++ "s") ≡ 15_000_000_000)
    × (parse_duration "15" ≡ 15_000_000)
parse_duration-digits_example = parse_duration-digits "1" "5" refl
